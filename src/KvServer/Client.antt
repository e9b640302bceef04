-- ===== src/KvServer/Client.antt =====
-- `handleClient` of KVserver/kvserver.cpp: one connection from its first byte to its close.
use co_kv.Prelude.{
  ℕ, zero, suc, ◌+◌, ◌≤◌, ◌≡◌, ◌≢◌, refl, sym, ◌∙◌, ap, Bool, true, false, Option, none, some, List,
  [], ◌∷◌, subst, ◌++◌, arith, ◌==◌, length, get_elem?, All,
}
use co_kv.Prelude.Run.{Run, done, fault, out_of_fuel, bind_run, Cmd}
use co_kv.SkipList.Memory.{Bytes, Ptr, null, State}
use co_kv.SkipList.Random.{toss}
use co_kv.SkipList.Dict.{Dict, Implements}
use co_kv.Text.{push, c_string, overlay, bytes_order}
use co_kv.KvServer.{
  Conn, codes, kvstore_skiplist_token, kvstore_parser_protocol, text_at, commands, find_command,
}
use co_kv.KvServer.Tokens.{words, kvstore_skiplist_token-words}
use co_kv.KvServer.Request.{
  Request, set, modify, get, del, count, wrong, respond, Asks, reply_buffer,
}
use co_kv.KvServer.Refine.{kvstore_parser_protocol-respond}

-- `memset(rbuf,0,sizeof(*rbuf))` clears one byte; `recv` writes what has come to the front.
unfoldable pub receive : Bytes → Conn → Conn
receive d c = record c { rbuf = overlay d (overlay (0 ∷ []) c.rbuf) }

-- One request: the branch of the loop for `len > 0`, up to the `send` of `wbuf`.
unfoldable pub serve_request : Ptr → Bytes → Cmd Conn (Unit {0})
serve_request fresh d c =
    bind_run (kvstore_skiplist_token (receive d c))
      λ n c. bind_run (kvstore_parser_protocol fresh n c) λ _ c. done tt c

-- What `recv` brings, with the address that `new` would return: bytes (none at the end of the
-- stream), or a failure.
pub data Received : Type 0 where
  bytes : Ptr → Bytes → Received
  failed : Received

-- A connection, the buffers sent, and how often its descriptor has been closed.
pub record Session : Type 0 where
  pub conn : Conn
  pub sent : List Bytes
  pub closes : ℕ

-- The loop over what `recv` brings. The result says whether the handler has returned.
unfoldable pub handle_client : List Received → Session → Run Session Bool
handle_client [] s = done false s
handle_client (failed ∷ rest) s = done true (record s { closes = s.closes + 1 })
handle_client (bytes fresh [] ∷ rest) s = done true (record s { closes = s.closes + 1 + 1 })
handle_client (bytes fresh (b ∷ bs) ∷ rest) s = elim (serve_request fresh (b ∷ bs) s.conn) [
  | done _ c ↦ handle_client rest (record s { conn = c; sent = s.sent ++ c.wbuf ∷ [] })
  | fault ↦ fault
  | out_of_fuel ↦ out_of_fuel
]

-- What is left of a buffer behind its first bytes.
abbrev pub drop : ℕ → Bytes → Bytes
drop zero xs = xs
drop (suc n) [] = []
drop (suc n) (x ∷ xs) = drop n xs

abbrev pub map_append : Bytes → Option Bytes → Option Bytes
map_append d none = none
map_append d (some t) = some (d ++ t)

push-map_append :
    (b : ℕ) (d : Bytes) (o : Option Bytes) → push b (map_append d o) ≡ map_append (b ∷ d) o
push-map_append b d none = refl
push-map_append b d (some t) = refl

c_string-overlay :
    (d buf : Bytes)
    → All (λ b. (b == 0) ≡ false) d
    → length d ≤ length buf
    → c_string (overlay d buf) ≡ map_append d (c_string (drop (length d) buf))
unfolding overlay c_string
c_string-overlay [] buf h k = empty (c_string buf)
  where
    empty : (o : Option Bytes) → o ≡ map_append [] o
    empty none = refl
    empty (some t) = refl
c_string-overlay (b ∷ d) [] h k = absurd (omega arith)
c_string-overlay (b ∷ d) (x ∷ buf) (nz, h) k =
    rw (nz, c_string-overlay d buf h (omega arith))
      (push-map_append b d (c_string (drop (length d) buf)))

-- The text of a request of bytes that are not NUL is what was received and, up to the next NUL,
-- what the buffer held behind it; there is none if the buffer holds no NUL there.
pub receive-text :
    (b : ℕ) (d : Bytes) (c : Conn)
    → All (λ x. (x == 0) ≡ false) (b ∷ d)
    → length (b ∷ d) ≤ length c.rbuf
    → c_string (receive (b ∷ d) c).rbuf
      ≡ map_append (b ∷ d) (c_string (drop (length (b ∷ d)) c.rbuf))
unfolding receive
receive-text b d c h k = over c.rbuf k
  where
    over :
        (buf : Bytes)
        → length (b ∷ d) ≤ length buf
        → c_string (overlay (b ∷ d) (overlay (0 ∷ []) buf))
          ≡ map_append (b ∷ d) (c_string (drop (length (b ∷ d)) buf))
    over [] k = absurd (omega arith)
    over (x ∷ buf) k = unfold overlay in c_string-overlay (b ∷ d) (0 ∷ buf) h k

pub length-overlay : (d buf : Bytes) → length (overlay d buf) ≡ length buf
unfolding overlay
length-overlay [] buf = refl
length-overlay (x ∷ d) [] = refl
length-overlay (x ∷ d) (b ∷ buf) = ap suc (length-overlay d buf)

receive-length : (d : Bytes) (c : Conn) → length (receive d c).rbuf ≡ length c.rbuf
unfolding receive
receive-length d c = length-overlay d (overlay (0 ∷ []) c.rbuf) ∙ length-overlay (0 ∷ []) c.rbuf

-- The words of a request, with any more words behind it.
abbrev pub Spells : List Bytes → Request → Type 0
Spells ws (set k v) = (more : List Bytes) × (ws ≡ codes "SKSET" ∷ k ∷ v ∷ more)
Spells ws (get k) = (more : List Bytes) × (ws ≡ codes "SKGET" ∷ k ∷ more)
Spells ws (del k) = (more : List Bytes) × (ws ≡ codes "SKDEL" ∷ k ∷ more)
Spells ws (modify k v) = (more : List Bytes) × (ws ≡ codes "SKMOD" ∷ k ∷ v ∷ more)
Spells ws count = (more : List Bytes) × (ws ≡ codes "SKCOUNT" ∷ more)
Spells ws (wrong w) = (more : List Bytes) × (ws ≡ w ∷ more) × (find_command commands w ≡ 5)

module _ (ws : List Bytes) (c : Conn)
    (read : (k : ℕ) (w : Bytes) → get_elem? ws k ≡ some w → text_at k c ≡ some w) where
  Spells-Asks : (r : Request) → Spells ws r → Asks c r
  Spells-Asks (set k v) (more, e) = (read 0 _ (rw e), read 1 k (rw e), read 2 v (rw e))
  Spells-Asks (get k) (more, e) = (read 0 _ (rw e), read 1 k (rw e))
  Spells-Asks (del k) (more, e) = (read 0 _ (rw e), read 1 k (rw e))
  Spells-Asks (modify k v) (more, e) = (read 0 _ (rw e), read 1 k (rw e), read 2 v (rw e))
  Spells-Asks count (more, e) = read 0 _ (rw e)
  Spells-Asks (wrong w) (more, e, f) = (read 0 w (rw e), f)

  Spells-length : (r : Request) → Spells ws r → (n : ℕ) × (length ws ≡ suc n)
  Spells-length (set k v) (more, e) = (length (k ∷ v ∷ more), ap (length {A = Bytes}) e)
  Spells-length (get k) (more, e) = (length (k ∷ more), ap (length {A = Bytes}) e)
  Spells-length (del k) (more, e) = (length (k ∷ more), ap (length {A = Bytes}) e)
  Spells-length (modify k v) (more, e) = (length (k ∷ v ∷ more), ap (length {A = Bytes}) e)
  Spells-length count (more, e) = (length more, ap (length {A = Bytes}) e)
  Spells-length (wrong w) (more, e, f) = (length more, ap (length {A = Bytes}) e)

-- A request whose text spells `r` is answered as the protocol says, from its bytes to the buffer
-- that is sent. The buffer and the slots keep their sizes.
pub serve_request-respond :
    (c : Conn) (m : Dict Bytes) (fresh : Ptr) (d t : Bytes) (r : Request) (n : ℕ) (rest : List ℕ)
    → Implements c.store m
    → fresh ≢ null
    → c.store.node fresh ≡ none
    → toss c.store.draws ≡ some (n, rest)
    → c_string (receive d c).rbuf ≡ some t
    → length (words false t) ≤ length c.kvlist
    → Spells (words false t) r
    → (c' : Conn) × (serve_request fresh d c ≡ done tt c')
      × Implements c'.store (respond r m).0
      × (c'.wbuf ≡ reply_buffer (respond r m).1)
      × (length c'.rbuf ≡ length c.rbuf)
      × (length c'.kvlist ≡ length c.kvlist)
unfolding serve_request
serve_request-respond c m fresh d t r n rest im ne unused draws text room spells =
    let (c₁, run₁, read, old, store, wbuf, size, slots) =
      kvstore_skiplist_token-words (receive d c) t text (unfold receive in room) in
    let store' : c₁.store ≡ c.store = store ∙ unfold receive in refl in
    let (calls, e) = Spells-length (words false t) c₁ read r spells in
    let (c₂, run₂, a) =
      kvstore_parser_protocol-respond {c = c₁} {m = m}
        (subst (λ (s : State Bytes). Implements s m) (sym store') im) fresh calls n rest ne
        (ap (λ (s : State Bytes). s.node fresh) store' ∙ unused)
        (ap (λ (s : State Bytes). toss s.draws) store' ∙ draws) r
        (Spells-Asks (words false t) c₁ read r spells) in
    (
      c₂,
      rw (run₁, e, run₂),
      a.store,
      a.reply,
      ap (length {A = ℕ}) a.input.0 ∙ size ∙ receive-length d c,
      ap (length {A = Option ℕ}) a.input.1 ∙ slots ∙ unfold receive in refl,
    )
