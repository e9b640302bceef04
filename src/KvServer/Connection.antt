-- ===== src/KvServer/Connection.antt =====
-- The whole of `KVS::handleClient` (KVserver/kvserver.cpp): the skip list that it makes for a connection, the
-- loop, and the skip list's end.
use co_kv.Prelude.{
  ℕ, ◌≡◌, ◌≢◌, refl, ◌∙◌, Bool, true, false, Option, none, List, [], ◌∷◌, if◌then◌else◌, length,
  arith, All, Bool-cases, inl, inr,
}
use co_kv.Prelude.Run.{Run, done, fault, out_of_fuel}
use co_kv.SkipList.Memory.{Bytes, Ptr, null, State}
use co_kv.SkipList.Ops.{construct, destruct}
use co_kv.SkipList.Cells.{has}
use co_kv.SkipList.Dict.{Dict, empty, Implements, construct-Implements}
use co_kv.SkipList.Lifetime.{destruct-freed}
use co_kv.Text.{bytes_order}
use co_kv.KvServer.{Conn, with_store}
use co_kv.KvServer.Client.{Received, Session, handle_client}
use co_kv.KvServer.Conversation.{
  Message, WellFormed, Supplied, converse, arrivals, handle_client-converse,
}

-- A connection as the loop finds it, for the address of the header, the draws to come, and what the
-- buffers that `new` returns hold.
abbrev pub opened : Ptr → List ℕ → Bytes → Bytes → List (Option ℕ) → Session
opened header draws rbuf wbuf kvlist = record {
  conn = record { rbuf = rbuf; wbuf = wbuf; kvlist = kvlist; store = construct header [] 6 draws };
  sent = [];
  closes = 0;
}

abbrev pub deleted : Session → Run Conn Unit → Run Session Bool
deleted s (done _ c) = done true (record s { conn = c })
deleted s fault = fault
deleted s out_of_fuel = out_of_fuel

-- `return`, which deletes the skip list.
abbrev pub leave : Run Session Bool → Run Session Bool
leave (done true s) = deleted s (with_store destruct s.conn)
leave (done false s) = done false s
leave fault = fault
leave out_of_fuel = out_of_fuel

-- `handleClient` from its first line to its return.
unfoldable pub serve_connection :
    Ptr → List ℕ → Bytes → Bytes → List (Option ℕ) → List Received → Run Session Bool
unfolding construct destruct handle_client
serve_connection header draws rbuf wbuf kvlist arrivals =
    leave (handle_client arrivals (opened header draws rbuf wbuf kvlist))

-- What a connection leaves behind: the replies, the closed descriptor, and no node in memory.
pub record Closed (xs : List Message) (broken : Bool) (s' : Session) : Type 0 where
  pub sent : s'.sent ≡ (converse xs empty).1
  pub closes : s'.closes ≡ (if broken then 1 else 2)
  pub freed : (p : Ptr) → s'.conn.store.node p ≡ none

all_freed :
    {s : State Bytes} {m : Dict Bytes} (im : Implements s m)
    → (s' : State Bytes) × (destruct s ≡ done tt s') × ((p : Ptr) → s'.node p ≡ none)
all_freed {s} im =
    let (s', run, gone) = destruct-freed s im.top im.cells im.inv in
    (
      s',
      run,
      λ p. gone p ∙ elim (Bool-cases (has p (im.top ∷ im.cells))) [
        | inl e ↦ rw e refl
        | inr e ↦ rw e (im.tight p e)
      ],
    )

module _ (header : Ptr) (draws : List ℕ) (rbuf wbuf : Bytes) (kvlist : List (Option ℕ))
    (broken : Bool) where
  -- A connection whose client sends well-formed requests and then ends the stream or breaks it is
  -- served from the first line of `handleClient` to its return, with no bad read and no failed
  -- assertion: an empty dictionary answers the requests, in their order, and when it returns every
  -- node that it has made is freed and the descriptor is closed, twice at the end of a stream. The
  -- conditions: `new` returns addresses that are not in use, and `rand` has an even number to come at
  -- each request. What the buffers hold at first does not matter.
  pub serve_connection-Closed :
      (xs : List Message)
      → header ≢ null
      → All (WellFormed (length rbuf) (length kvlist)) xs
      → Supplied xs (opened header draws rbuf wbuf kvlist).conn
      → (s' : Session) × (serve_connection header draws rbuf wbuf kvlist (arrivals xs broken)
          ≡ done true s')
        × Closed xs broken s'
  unfolding serve_connection
  serve_connection-Closed xs ne good supply =
      let (s, run, c) =
        handle_client-converse broken xs (opened header draws rbuf wbuf kvlist) empty
          (construct-Implements header [] 6 draws ne) good supply in
      let (t, over, gone) = all_freed c.store in
      (
        record s { conn = record s.conn { store = t } },
        rw (serve_connection, run, over) refl,
        record { sent = c.sent; closes = c.closes ∙ omega arith; freed = gone },
      )
