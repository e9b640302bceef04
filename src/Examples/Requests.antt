-- ===== src/Examples/Requests.antt =====
-- Requests of one client (KVserver/kvserver.cpp).
use co_kv.Prelude.{
  ℕ, ◌≡◌, ◌≤◌, refl, true, false, none, some, [], ◌∷◌, ◌++◌, arith, length, get_elem?,
}
use co_kv.Prelude.Run.{done}
use co_kv.Text.{bytes_order, c_string, string_at, overlay, replicate}
use co_kv.SkipList.Memory.{Bytes}
use co_kv.SkipList.Dict.{empty, Implements}
use co_kv.KvServer.{Conn, codes, kvstore_skiplist_token, kvstore_parser_protocol, text_at}
use co_kv.KvServer.Tokens.{take_word, words, kvstore_skiplist_token-words}
use co_kv.KvServer.Request.{set, respond, Asks, reply_buffer}
use co_kv.KvServer.Refine.{Answers, kvstore_parser_protocol-respond}
use co_kv.KvServer.Client.{receive, serve_request, Spells, serve_request-respond}
use co_kv.Examples.Items.{
  no_items, no_items-Implements, no_items_toss, unused, two_ne_null, apple, red,
}

-- A connection with buffers of the size that this request needs.
abbrev fresh_conn : Conn
fresh_conn = record {
  rbuf = replicate 12 0;
  wbuf = replicate 1024 0;
  kvlist = none ∷ none ∷ none ∷ none ∷ [];
  store = no_items;
}

abbrev request : Bytes
request = codes "SKSET a r"

text_received : c_string (receive request fresh_conn).rbuf ≡ some request
unfolding receive overlay c_string
text_received = refl

room : length (words false request) ≤ 4
unfolding words take_word
room = omega arith

spelt : Spells (words false request) (set apple red)
unfolding words take_word
spelt = ([], refl)

serve_request-respond_example :
    (c' : Conn) × (serve_request 2 request fresh_conn ≡ done tt c')
    × Implements c'.store (respond (set apple red) empty).0
    × (c'.wbuf ≡ reply_buffer (respond (set apple red) empty).1)
    × (length c'.rbuf ≡ length fresh_conn.rbuf)
    × (length c'.kvlist ≡ length fresh_conn.kvlist)
serve_request-respond_example =
    serve_request-respond fresh_conn empty 2 request request (set apple red) 1 (3 ∷ 5 ∷ 4 ∷ [])
      no_items-Implements two_ne_null unused no_items_toss text_received room spelt

abbrev asking : Conn
asking = record fresh_conn {
  rbuf = codes "SKSET" ++ 0 ∷ codes "a" ++ 0 ∷ codes "r" ++ 0 ∷ [];
  kvlist = some 0 ∷ some 6 ∷ some 8 ∷ none ∷ [];
}

asked : Asks asking (set apple red)
unfolding text_at string_at c_string
asked = (refl, refl, refl)

kvstore_parser_protocol-respond_example :
    (c' : Conn) × (kvstore_parser_protocol 2 3 asking ≡ done true c')
    × Answers asking c' empty (set apple red)
kvstore_parser_protocol-respond_example =
    kvstore_parser_protocol-respond no_items-Implements 2 2 1 (3 ∷ 5 ∷ 4 ∷ []) two_ne_null unused
      no_items_toss (set apple red) asked

kvstore_skiplist_token-words_example :
    (c' : Conn) × (kvstore_skiplist_token (receive request fresh_conn)
      ≡ done (length (words false request)) c')
    × ((k : ℕ) (w : Bytes) → get_elem? (words false request) k ≡ some w → text_at k c' ≡ some w)
    × ((k : ℕ)
        → length (words false request) ≤ k
        → get_elem? c'.kvlist k ≡ get_elem? (receive request fresh_conn).kvlist k)
    × (c'.store ≡ (receive request fresh_conn).store)
    × (c'.wbuf ≡ (receive request fresh_conn).wbuf)
    × (length c'.rbuf ≡ length (receive request fresh_conn).rbuf)
    × (length c'.kvlist ≡ length (receive request fresh_conn).kvlist)
unfolding receive
kvstore_skiplist_token-words_example =
    kvstore_skiplist_token-words (receive request fresh_conn) request text_received room
