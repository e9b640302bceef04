-- ===== src/KvServer/Conversation.antt =====
-- A whole connection of `handleClient` (KVserver/kvserver.cpp): requests, and the end of the stream.
use co_kv.Prelude.{
  ℕ, ◌+◌, ◌≤◌, ◌<◌, ◌≡◌, ◌≢◌, refl, sym, ◌∙◌, ap, Bool, true, false, none, some, List, [], ◌∷◌,
  ◌++◌, append_assoc, append_nil, arith, ◌==◌, if◌then◌else◌, length, All,
}
use co_kv.Prelude.Run.{done}
use co_kv.SkipList.Memory.{Bytes, Ptr, null}
use co_kv.SkipList.Random.{toss}
use co_kv.SkipList.Dict.{Dict, Implements}
use co_kv.Text.{c_string, overlay, bytes_order}
use co_kv.KvServer.{Conn}
use co_kv.KvServer.Tokens.{words}
use co_kv.KvServer.Request.{Request, respond, reply_buffer}
use co_kv.KvServer.Client.{
  receive, serve_request, Received, bytes, failed, Session, handle_client, Spells,
  serve_request-respond, length-overlay,
}

c_string-overlay_nul :
    (t buf : Bytes)
    → All (λ b. (b == 0) ≡ false) t
    → length t < length buf
    → c_string (overlay (t ++ 0 ∷ []) buf) ≡ some t
unfolding overlay c_string
c_string-overlay_nul t [] h k = absurd (omega arith)
c_string-overlay_nul [] (x ∷ buf) h k = refl
c_string-overlay_nul (b ∷ t) (x ∷ buf) (nz, h) k =
    rw (nz, c_string-overlay_nul t buf h (omega arith)) refl

-- A request, as its client sends it: a text with a NUL behind it, in one piece; and the address that
-- `new` returns if the request creates a node.
pub record Message : Type 0 where
  pub fresh : Ptr
  pub text : Bytes
  pub request : Request

abbrev pub arrival : Message → Received
arrival x = bytes x.fresh (x.text ++ 0 ∷ [])

-- The text has no NUL, fits into `room` bytes with the one behind it, and has the words of the
-- request, at most `slots` of them.
pub record WellFormed (room slots : ℕ) (x : Message) : Type 0 where
  pub clean : All (λ b. (b == 0) ≡ false) x.text
  pub fits : length x.text < room
  pub few : length (words false x.text) ≤ slots
  pub spelt : Spells (words false x.text) x.request

-- At each request `new` returns an address that is not in use then, and `rand` has an even number
-- to come.
unfoldable pub Supplied : List Message → Conn → Type 0
Supplied [] c = Unit
Supplied (x ∷ xs) c =
    (x.fresh ≢ null)
    × (c.store.node x.fresh ≡ none)
    × ((n : ℕ) × (rest : List ℕ) × (toss c.store.draws ≡ some (n, rest)))
    × ((c' : Conn) → serve_request x.fresh (x.text ++ 0 ∷ []) c ≡ done tt c' → Supplied xs c')

-- The dictionary and the buffers that the protocol leads to.
unfoldable pub converse : List Message → Dict Bytes → Dict Bytes × List Bytes
converse [] m = (m, [])
converse (x ∷ xs) m =
    let (m', replies) = converse xs (respond x.request m).0 in
    (m', reply_buffer (respond x.request m).1 ∷ replies)

-- The last thing that `recv` reports: a failure, or the end of the stream.
abbrev pub ending : Bool → Received
ending broken = if broken then failed else bytes null []

abbrev pub arrivals : List Message → Bool → List Received
arrivals [] broken = ending broken ∷ []
arrivals (x ∷ xs) broken = arrival x ∷ arrivals xs broken

handle_client-request :
    (fresh : Ptr) (t : Bytes) (rest : List Received) (s : Session) (c : Conn)
    → serve_request fresh (t ++ 0 ∷ []) s.conn ≡ done tt c
    → handle_client (bytes fresh (t ++ 0 ∷ []) ∷ rest) s
      ≡ handle_client rest (record s { conn = c; sent = s.sent ++ c.wbuf ∷ [] })
unfolding handle_client
handle_client-request fresh [] rest s c h = rw (handle_client, h)
handle_client-request fresh (b ∷ t) rest s c h = rw (handle_client, h)

receive-message :
    (t : Bytes) (c : Conn)
    → All (λ b. (b == 0) ≡ false) t
    → length t < length c.rbuf
    → c_string (receive (t ++ 0 ∷ []) c).rbuf ≡ some t
unfolding receive
receive-message t c clean fits =
    c_string-overlay_nul t (overlay (0 ∷ []) c.rbuf) clean
      (rw (length-overlay (0 ∷ []) c.rbuf) fits)

-- What a conversation leaves behind.
pub record Conversed (s s' : Session) (m : Dict Bytes) (xs : List Message) (broken : Bool)
    : Type 0 where
  pub store : Implements s'.conn.store (converse xs m).0
  pub sent : s'.sent ≡ s.sent ++ (converse xs m).1
  pub closes : s'.closes ≡ s.closes + (if broken then 1 else 2)

ended :
    (broken : Bool) (s : Session) (m : Dict Bytes)
    → Implements s.conn.store m
    → (s' : Session) × (handle_client (arrivals [] broken) s ≡ done true s')
      × Conversed s s' m [] broken
unfolding handle_client converse
ended true s m im = (
  record s { closes = s.closes + 1 },
  refl,
  record { store = im; sent = sym (append_nil s.sent); closes = refl },
)
ended false s m im = (
  record s { closes = s.closes + 1 + 1 },
  refl,
  record { store = im; sent = sym (append_nil s.sent); closes = omega arith },
)

module _ (broken : Bool) where
  -- A client that sends well-formed requests, each with a NUL behind it, and then ends the stream or
  -- breaks it, is served to the end: `handleClient` returns, whatever the buffers held before. It has
  -- sent the replies of the protocol, one for each request and in their order, the store stands for
  -- the dictionary that the requests lead to, and the descriptor has been closed, twice at the end of
  -- a stream. The condition: at each request `new` returns an address that is not in use then, and
  -- `rand` has an even number to come.
  pub handle_client-converse :
      (xs : List Message) (s : Session) (m : Dict Bytes)
      → Implements s.conn.store m
      → All (WellFormed (length s.conn.rbuf) (length s.conn.kvlist)) xs
      → Supplied xs s.conn
      → (s' : Session) × (handle_client (arrivals xs broken) s ≡ done true s')
        × Conversed s s' m xs broken
  unfolding handle_client Supplied converse
  handle_client-converse [] s m im good supply = ended broken s m im
  handle_client-converse (x ∷ xs) s m im (g, good) (ne, unused, (n, rest, draws), next) =
      let (c, run, im', reply, size, slots) =
        serve_request-respond s.conn m x.fresh (x.text ++ 0 ∷ []) x.text x.request n rest im ne
          unused draws (receive-message x.text s.conn g.clean g.fits) g.few g.spelt in
      let s₁ : Session = record s { conn = c; sent = s.sent ++ c.wbuf ∷ [] } in
      let (s', run', after) =
        handle_client-converse xs s₁ (respond x.request m).0 im' (rw (size, slots) good)
          (next c run) in
      (
        s',
        handle_client-request x.fresh x.text (arrivals xs broken) s c run ∙ run',
        record {
          store = after.store;
          sent =
              after.sent
              ∙ append_assoc s.sent (c.wbuf ∷ []) (converse xs (respond x.request m).0).1
              ∙ ap (λ (w : Bytes). s.sent ++ w ∷ (converse xs (respond x.request m).0).1) reply;
          closes = after.closes;
        },
      )
