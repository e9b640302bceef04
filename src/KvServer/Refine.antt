-- ===== src/KvServer/Refine.antt =====
-- `kvstore_parser_protocol` of KVserver/kvserver.cpp against the protocol on dictionaries.
use co_kv.Prelude.{
  ℕ, suc, ◌≡◌, ◌≢◌, refl, Bool, true, false, Option, none, some, List, [], arith, inl, inr, ◌⊎◌,
  ◌==◌,
}
use co_kv.Prelude.Run.{Run, done, bind_run, pure}
use co_kv.SkipList.Memory.{Bytes, Ptr, null, State}
use co_kv.SkipList.Random.{toss}
use co_kv.SkipList.Dict.{
  Dict, drop, Implements, search_element-Dict, get_element-Dict, size-Dict, insert_element-Dict,
  delete_element-Dict,
}
use co_kv.Text.{to_string, bytes_order, eq_bytes, eq_bytes_refl, overlay, until_nul, replicate}
use co_kv.KvServer.{
  Conn, codes, text_at, read_text, snprintf, commands, command, find_command, dispatch,
  kvstore_parser_protocol,
}
use co_kv.KvServer.Request.{
  Request, set, modify, get, del, count, wrong, respond, Asks, reply_buffer,
}

-- What a request leaves behind.
pub record Answers (c c' : Conn) (m : Dict Bytes) (r : Request) : Type 0 where
  pub store : Implements c'.store (respond r m).0
  pub reply : c'.wbuf ≡ reply_buffer (respond r m).1
  pub input : (c'.rbuf ≡ c.rbuf) × (c'.kvlist ≡ c.kvlist)

abbrev Outcome : Conn → Dict Bytes → Request → Run Conn Bool → Type 0
Outcome c m r run = (c' : Conn) × (run ≡ done true c') × Answers c c' m r

Option-cases : (o : Option Bytes) → (o ≡ none) ⊎ ((v : Bytes) × (o ≡ some v))
Option-cases none = inl refl
Option-cases (some v) = inr (v, refl)

-- A connection with another store and reply; the texts of the request stay.
abbrev edit : Conn → State Bytes → Bytes → Conn
edit c s w = record c { store = s; wbuf = w }

abbrev cleared : Conn → Conn
cleared c = edit c c.store (replicate 1024 0)

read_text-some : (c : Conn) (i : ℕ) (t : Bytes) → text_at i c ≡ some t → read_text i c ≡ done t c
unfolding read_text
read_text-some c i t h = rw (h, read_text)

module _ (c : Conn) where
  read_text-edit :
      (i : ℕ) (t : Bytes) (s : State Bytes) (w : Bytes)
      → text_at i c ≡ some t
      → read_text i (edit c s w) ≡ done t (edit c s w)
  read_text-edit i t s w h = read_text-some (edit c s w) i t (unfold text_at in h)

  snprintf-edit :
      (text : Bytes) (s : State Bytes)
      → snprintf text (edit c s (replicate 1024 0)) ≡ done tt (edit c s (reply_buffer text))
  unfolding snprintf reply_buffer
  snprintf-edit text s = refl

  start :
      (fresh : Ptr) (calls : ℕ) (name : Bytes) (i : ℕ)
      → text_at 0 c ≡ some name
      → find_command commands name ≡ i
      → kvstore_parser_protocol fresh (suc calls) c
        ≡ bind_run (dispatch fresh (command i) (cleared c)) (λ _. pure true)
  unfolding kvstore_parser_protocol
  start fresh calls name i h e =
      let f : (suc calls == 0) ≡ false = ground arith in
      rw (f, kvstore_parser_protocol, read_text-some c 0 name h, e)

  -- An empty text is what the clearing leaves.
  no_text : replicate 1024 0 ≡ reply_buffer []
  unfolding reply_buffer overlay until_nul
  no_text = refl

command_indices :
    (find_command commands (codes "SKSET") ≡ 0)
    × (find_command commands (codes "SKGET") ≡ 1)
    × (find_command commands (codes "SKDEL") ≡ 2)
    × (find_command commands (codes "SKMOD") ≡ 3)
    × (find_command commands (codes "SKCOUNT") ≡ 4)
unfolding find_command eq_bytes
command_indices = (refl, refl, refl, refl, refl)

module _ {c : Conn} {m : Dict Bytes} (im : Implements c.store m) (fresh : Ptr) (calls : ℕ) where
  answer_get :
      (k : Bytes)
      → Asks c (get k)
      → Outcome c m (get k) (kvstore_parser_protocol fresh (suc calls) c)
  unfolding dispatch respond
  answer_get k (a, b) =
      rw (start c fresh calls (codes "SKGET") 1 a command_indices.1)
        (elim (Option-cases (m.value k)) [
          | inl e ↦ (
            edit c c.store (reply_buffer (codes "Not Found")),
            rw (
              read_text-edit c 1 k c.store (replicate 1024 0) b,
              search_element-Dict im k,
              e,
              snprintf-edit c (codes "Not Found") c.store,
            ),
            record { store = im; reply = rw e; input = (refl, refl) },
          )
          | inr (w, e) ↦ (
            edit c c.store (reply_buffer w),
            rw (
              read_text-edit c 1 k c.store (replicate 1024 0) b,
              search_element-Dict im k,
              e,
              get_element-Dict im k,
              e,
              snprintf-edit c w c.store,
            ),
            record { store = im; reply = rw e; input = (refl, refl) },
          )
        ])

  answer_count : Asks c count → Outcome c m count (kvstore_parser_protocol fresh (suc calls) c)
  unfolding dispatch respond
  answer_count a = rw (start c fresh calls (codes "SKCOUNT") 4 a command_indices.4) (
    edit c c.store (reply_buffer (to_string m.count)),
    rw (size-Dict im, snprintf-edit c (to_string m.count) c.store),
    record { store = im; reply = refl; input = (refl, refl) },
  )

  answer_wrong :
      (w : Bytes)
      → Asks c (wrong w)
      → Outcome c m (wrong w) (kvstore_parser_protocol fresh (suc calls) c)
  unfolding dispatch respond
  answer_wrong w (a, b) = rw (start c fresh calls w 5 a b) (
    edit c c.store (reply_buffer (codes "Wrong Operation")),
    rw (snprintf-edit c (codes "Wrong Operation") c.store),
    record { store = im; reply = refl; input = (refl, refl) },
  )

  answer_del :
      (k : Bytes)
      → Asks c (del k)
      → Outcome c m (del k) (kvstore_parser_protocol fresh (suc calls) c)
  unfolding dispatch respond
  answer_del k (a, b) =
      rw (start c fresh calls (codes "SKDEL") 2 a command_indices.2)
        (elim (Option-cases (m.value k)) [
          | inl e ↦ (
            edit c c.store (reply_buffer (codes "Not Found")),
            rw (
              read_text-edit c 1 k c.store (replicate 1024 0) b,
              search_element-Dict im k,
              e,
              snprintf-edit c (codes "Not Found") c.store,
            ),
            record { store = rw e im; reply = rw e; input = (refl, refl) },
          )
          | inr (w, e) ↦
              let (s', run, im', _, _) = delete_element-Dict im k w e in
              (
                edit c s' (replicate 1024 0),
                rw (
                  read_text-edit c 1 k c.store (replicate 1024 0) b,
                  search_element-Dict im k,
                  e,
                  run,
                ),
                record { store = rw e im'; reply = rw e (no_text c); input = (refl, refl) },
              )
        ])

  module _ (n : ℕ) (rest : List ℕ) (ne : fresh ≢ null) (unused : c.store.node fresh ≡ none)
      (draws : toss c.store.draws ≡ some (n, rest)) where
    answer_set :
        (k v : Bytes)
        → Asks c (set k v)
        → Outcome c m (set k v) (kvstore_parser_protocol fresh (suc calls) c)
    unfolding dispatch respond
    answer_set k v (a, b, d) =
        rw (start c fresh calls (codes "SKSET") 0 a command_indices.0)
          (elim (Option-cases (m.value k)) [
            | inl e ↦
                let (s', run, im', _) = insert_element-Dict im fresh k v n rest e ne unused draws in
                (
                  edit c s' (reply_buffer (codes "SUCCESS")),
                  rw (
                    read_text-edit c 1 k c.store (replicate 1024 0) b,
                    search_element-Dict im k,
                    e,
                    read_text-edit c 2 v c.store (replicate 1024 0) d,
                    run,
                    snprintf-edit c (codes "SUCCESS") s',
                  ),
                  record { store = rw e im'; reply = rw e; input = (refl, refl) },
                )
            | inr (w, e) ↦ (
              edit c c.store (reply_buffer (codes "EXIST")),
              rw (
                read_text-edit c 1 k c.store (replicate 1024 0) b,
                search_element-Dict im k,
                e,
                snprintf-edit c (codes "EXIST") c.store,
              ),
              record { store = rw e im; reply = rw e; input = (refl, refl) },
            )
          ])

    answer_modify :
        (k v : Bytes)
        → Asks c (modify k v)
        → Outcome c m (modify k v) (kvstore_parser_protocol fresh (suc calls) c)
    unfolding dispatch respond
    answer_modify k v (a, b, d) =
        rw (start c fresh calls (codes "SKMOD") 3 a command_indices.3)
          (elim (Option-cases (m.value k)) [
            | inl e ↦ (
              edit c c.store (reply_buffer (codes "Not Found")),
              rw (
                read_text-edit c 1 k c.store (replicate 1024 0) b,
                search_element-Dict im k,
                e,
                snprintf-edit c (codes "Not Found") c.store,
              ),
              record { store = rw e im; reply = rw e; input = (refl, refl) },
            )
            | inr (w, e) ↦
                let (s', run, im', still, same) = delete_element-Dict im k w e in
                let gone : (drop m k).value k ≡ none = rw (eq_bytes_refl k) in
                let (t', run', im'', _) =
                  insert_element-Dict im' fresh k v n rest gone ne (still fresh unused)
                    (rw same draws) in
                (
                  edit c t' (replicate 1024 0),
                  rw (
                    read_text-edit c 1 k c.store (replicate 1024 0) b,
                    search_element-Dict im k,
                    e,
                    run,
                    read_text-edit c 2 v s' (replicate 1024 0) d,
                    run',
                  ),
                  record { store = rw e im''; reply = rw e (no_text c); input = (refl, refl) },
                )
          ])

    -- Where the store stands for a dictionary, the address that `new` returns is not in use and an
    -- even number is drawn, every request whose texts are in place is answered with the result 0, leads
    -- to the dictionary and the reply of the protocol, and leaves its texts in place.
    pub kvstore_parser_protocol-respond :
        (r : Request) → Asks c r → Outcome c m r (kvstore_parser_protocol fresh (suc calls) c)
    kvstore_parser_protocol-respond (set k v) h = answer_set k v h
    kvstore_parser_protocol-respond (modify k v) h = answer_modify k v h
    kvstore_parser_protocol-respond (get k) h = answer_get k h
    kvstore_parser_protocol-respond (del k) h = answer_del k h
    kvstore_parser_protocol-respond count h = answer_count h
    kvstore_parser_protocol-respond (wrong w) h = answer_wrong w h
