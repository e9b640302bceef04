-- ===== src/Examples/Conversations.antt =====
-- A connection with two requests (KVserver/kvserver.cpp).
use co_kv.Prelude.{
  ℕ, ◌≡◌, ◌≢◌, refl, sym, ◌∙◌, ap, true, false, Option, none, some, List, [], ◌∷◌, ◌++◌, arith,
}
use co_kv.Prelude.Run.{Run, done, fault, out_of_fuel}
use co_kv.Text.{bytes_order, eq_bytes, lt_bytes, c_string, string_at, overlay, replicate, until_nul}
use co_kv.SkipList.Memory.{Bytes, Ptr, Node, null, State}
use co_kv.SkipList.Random.{toss}
use co_kv.SkipList.Ops
use co_kv.KvServer.{
  Conn, codes, kvstore_skiplist_token, strtok, store_tokens, kvstore_parser_protocol, text_at,
  read_text, snprintf, dispatch, find_command,
}
use co_kv.KvServer.Tokens.{take_word, words}
use co_kv.KvServer.Request.{set, count}
use co_kv.KvServer.Client.{receive, serve_request, Session}
use co_kv.KvServer.Conversation.{Message, WellFormed, Supplied, arrivals}
use co_kv.KvServer.Connection.{serve_connection, Closed, serve_connection-Closed}
use co_kv.Examples.Items.{one_ne_null, no_items, no_items_toss, unused, two_ne_null, apple, red}

-- The buffer holds what an earlier connection has left.
abbrev used_conn : Conn
used_conn = record {
  rbuf = replicate 12 66;
  wbuf = [];
  kvlist = none ∷ none ∷ none ∷ none ∷ [];
  store = no_items;
}

abbrev start : Session
start = record { conn = used_conn; sent = []; closes = 0 }

abbrev storing : Message
storing = record { fresh = 2; text = codes "SKSET a r"; request = set apple red }

abbrev counting : Message
counting = record { fresh = 3; text = codes "SKCOUNT"; request = count }

storing-WellFormed : WellFormed 12 4 storing
unfolding words take_word
storing-WellFormed = record {
  clean = (refl, (refl, (refl, (refl, (refl, (refl, (refl, (refl, (refl, tt)))))))));
  fits = omega arith;
  few = omega arith;
  spelt = ([], refl);
}

counting-WellFormed : WellFormed 12 4 counting
unfolding words take_word
counting-WellFormed = record {
  clean = (refl, (refl, (refl, (refl, (refl, (refl, (refl, tt)))))));
  fits = omega arith;
  few = omega arith;
  spelt = ([], refl);
}

abbrev node_in : Ptr → Run Conn Unit → Option (Node Bytes)
node_in q (done _ c) = c.store.node q
node_in q fault = none
node_in q out_of_fuel = none

abbrev draws_in : Run Conn Unit → List ℕ
draws_in (done _ c) = c.store.draws
draws_in fault = []
draws_in out_of_fuel = []

served :
    (node_in 3 (serve_request 2 (storing.text ++ 0 ∷ []) used_conn) ≡ none)
    × (draws_in (serve_request 2 (storing.text ++ 0 ∷ []) used_conn) ≡ 3 ∷ 5 ∷ 4 ∷ [])
unfolding co_kv.SkipList.Ops.construct co_kv.SkipList.Ops.count_odds
    co_kv.SkipList.Ops.get_random_level co_kv.SkipList.Ops.create_node co_kv.SkipList.Ops.advance
    co_kv.SkipList.Ops.descend co_kv.SkipList.Ops.descend_update co_kv.SkipList.Ops.matches
    co_kv.SkipList.Ops.find_node co_kv.SkipList.Ops.search_element co_kv.SkipList.Ops.raise_update
    co_kv.SkipList.Ops.raise_level co_kv.SkipList.Ops.link co_kv.SkipList.Ops.insert_new
    co_kv.SkipList.Ops.insert_element co_kv.SkipList.Memory.load_forward
    co_kv.SkipList.Memory.store_forward co_kv.Text.eq_bytes co_kv.Text.string_at co_kv.Text.overlay
    co_kv.KvServer.strtok co_kv.KvServer.store_tokens co_kv.KvServer.kvstore_skiplist_token
    co_kv.KvServer.text_at co_kv.KvServer.read_text co_kv.KvServer.snprintf
    co_kv.KvServer.find_command co_kv.KvServer.dispatch co_kv.KvServer.kvstore_parser_protocol
    receive serve_request
served = (refl, refl)

three_ne_null : 3 ≢ null
three_ne_null = ground arith

four_drawn : toss (3 ∷ 5 ∷ 4 ∷ []) ≡ some (2, [])
unfolding toss
four_drawn = refl

supply : Supplied (storing ∷ counting ∷ []) used_conn
unfolding Supplied
supply = (
  two_ne_null,
  unused,
  (1, 3 ∷ 5 ∷ 4 ∷ [], no_items_toss),
  λ c' run. (
    three_ne_null,
    ap (node_in 3) (sym run) ∙ served.0,
    (2, [], ap toss (ap draws_in (sym run) ∙ served.1) ∙ four_drawn),
    λ c'' run'. tt,
  ),
)

serve_connection-Closed_example :
    (s' : Session) × (serve_connection 1
        (1 ∷ 2 ∷ 3 ∷ 5 ∷ 4 ∷ [])
        (replicate 12 66)
        []
        used_conn.kvlist
        (arrivals (storing ∷ counting ∷ []) false)
      ≡ done true s')
    × Closed (storing ∷ counting ∷ []) false s'
serve_connection-Closed_example =
    serve_connection-Closed 1 (1 ∷ 2 ∷ 3 ∷ 5 ∷ 4 ∷ []) (replicate 12 66) [] used_conn.kvlist false
      (storing ∷ counting ∷ []) one_ne_null (storing-WellFormed, (counting-WellFormed, tt)) supply
