-- ===== src/KvServer.antt =====
-- The key-value server of KVserver/kvserver.cpp: what it keeps for a connection, and one request.
pub mod Tokens
pub mod Request
pub mod Refine
pub mod Client
pub mod Conversation
pub mod Connection
use Prim.Native.String.{String}
use Prim.Native.Char.{code}
use co_kv.Prelude.{
  ℕ, zero, suc, ◌+◌, Bool, true, false, Option, none, some, List, [], ◌∷◌, ◌++◌, ◌==◌,
  if◌then◌else◌, length, get_elem?,
}
use co_kv.Prelude.Run.{Run, done, fault, out_of_fuel, Cmd, bind_run, pure, ◌>>=◌, ◌>>◌}
use co_kv.SkipList.Memory.{Bytes, Ptr, State, KeyOrder}
use co_kv.SkipList.Ops.{search_element, get_element, insert_element, delete_element, size}
use co_kv.Text.{
  eq_bytes, bytes_order, to_string, push, string_at, overlay, until_nul, take, replicate,
}

-- The code points of a text, its bytes where it is ASCII.
abbrev pub codes : String → Bytes
codes String.[] = []
codes (String.◌∷◌ c s) = code c ∷ codes s

-- What `handleClient` hangs on the socket: `rbuf` and `wbuf` are 1024 bytes, and `kvlist` has room
-- for 128 pointers. A pointer is an offset into `rbuf`; `none` has never been written.
pub record Conn : Type 0 where
  pub rbuf : Bytes
  pub wbuf : Bytes
  pub kvlist : List (Option ℕ)
  pub store : State Bytes

-- All of `strtok` over a buffer whose first byte has offset `i`: where the tokens begin, and the
-- buffer with a NUL for the blank behind each token. `none` is a run over the end of the buffer.
abbrev found_at : Bool → ℕ → Option (List ℕ × Bytes) → ℕ → Option (List ℕ × Bytes)
found_at inside i none c = none
found_at true i (some (starts, buf)) c = some (starts, c ∷ buf)
found_at false i (some (starts, buf)) c = some (i ∷ starts, c ∷ buf)

abbrev blank_at : Bool → Option (List ℕ × Bytes) → ℕ → Option (List ℕ × Bytes)
blank_at inside none c = none
blank_at inside (some (starts, buf)) c = some (starts, (if inside then 0 else c) ∷ buf)

abbrev blank : ℕ
blank = b' '

unfoldable pub strtok : Bool → ℕ → Bytes → Option (List ℕ × Bytes)
strtok inside i [] = none
strtok inside i (c ∷ cs) =
    let spaced = blank_at inside (strtok false (i + 1) cs) c in
    let found = found_at inside i (strtok true (i + 1) cs) c in
    if c == 0 then some ([], c ∷ cs) else if c == blank then spaced else found

-- `kvlist[idx++] = token;`: `none` is a write behind the end of the array.
unfoldable pub store_tokens : List ℕ → List (Option ℕ) → Option (List (Option ℕ))
store_tokens [] slots = some slots
store_tokens (p ∷ ps) [] = none
store_tokens (p ∷ ps) (q ∷ slots) = elim (store_tokens ps slots) [
  | none ↦ none
  | some rest ↦ some (some p ∷ rest)
]

-- `kvstore_skiplist_token`. Its test for null pointers is left out: the caller passes arrays that
-- `new` returned.
unfoldable pub kvstore_skiplist_token : Cmd Conn ℕ
kvstore_skiplist_token c = elim (strtok false 0 c.rbuf) [
  | none ↦ fault
  | some (starts, buf) ↦ elim (store_tokens starts c.kvlist) [
    | none ↦ fault
    | some slots ↦ done (length starts) (record c { rbuf = buf; kvlist = slots })
  ]
]

-- The text of `kvlist[i]`, if there is a pointer and a NUL behind it.
unfoldable pub text_at : ℕ → Conn → Option Bytes
text_at i c = elim (get_elem? c.kvlist i) [
  | none ↦ none
  | some slot ↦ elim slot [ none ↦ none | some p ↦ string_at p c.rbuf ]
]

unfoldable pub read_text : ℕ → Cmd Conn Bytes
read_text i c = elim (text_at i c) [ none ↦ fault | some t ↦ done t c ]

-- `snprintf(wbuf,1024,"%s",text)`
unfoldable pub snprintf : Bytes → Cmd Conn (Unit {0})
snprintf text c =
    done tt (record c { wbuf = overlay (take 1023 (until_nul text) ++ 0 ∷ []) c.wbuf })

-- An operation of the connection's skip list.
abbrev pub on_store : {A : Type 0} → Run (State Bytes) A → Conn → Run Conn A
on_store (done a s) c = done a (record c { store = s })
on_store fault c = fault
on_store out_of_fuel c = out_of_fuel

abbrev pub with_store : {A : Type 0} → Cmd (State Bytes) A → Cmd Conn A
with_store m c = on_store (m c.store) c

abbrev pub commands : List Bytes
commands = codes "SKSET" ∷ codes "SKGET" ∷ codes "SKDEL" ∷ codes "SKMOD" ∷ codes "SKCOUNT" ∷ []

-- The loop over `commands`: the index of the first that equals the text, or their number.
unfoldable pub find_command : List Bytes → Bytes → ℕ
find_command [] text = 0
find_command (name ∷ names) text =
    let rest = suc (find_command names text) in if eq_bytes name text then 0 else rest

pub data Command : Type 0 where
  skset skget skdel skmod skcount other : Command

-- The enumerators KVS_CMD_SKSET to KVS_CMD_SKCOUNT, and any other number.
abbrev pub command : ℕ → Command
command zero = skset
command (suc zero) = skget
command (suc (suc zero)) = skdel
command (suc (suc (suc zero))) = skmod
command (suc (suc (suc (suc zero)))) = skcount
command _ = other

-- The `switch`, for the address `fresh` that `new` will return.
unfoldable pub dispatch : Ptr → Command → Cmd Conn (Unit {0})
dispatch fresh skset = do
  key ← read_text 1
  val ← with_store (search_element key)
  if val then snprintf (codes "EXIST") else do
    value ← read_text 2
    ret ← with_store (insert_element fresh key value)
    if ret == 0 then snprintf (codes "SUCCESS") else snprintf (codes "FAILED")
dispatch fresh skget = do
  key ← read_text 1
  val ← with_store (search_element key)
  if val
      then (do str ← with_store (get_element key); snprintf str)
      else snprintf (codes "Not Found")
dispatch fresh skdel = do
  key ← read_text 1
  val ← with_store (search_element key)
  if val then with_store (delete_element key) else snprintf (codes "Not Found")
dispatch fresh skmod = do
  key ← read_text 1
  val ← with_store (search_element key)
  if val
      then (do
        with_store (delete_element key)
        value ← read_text 2
        ret ← with_store (insert_element fresh key value)
        pure tt)
      else snprintf (codes "Not Found")
dispatch fresh skcount = do count ← with_store size; snprintf (to_string count)
dispatch fresh other = snprintf (codes "Wrong Operation")

-- `kvstore_parser_protocol`: `false` for the return value -1, `true` for 0.
unfoldable pub kvstore_parser_protocol : Ptr → ℕ → Cmd Conn Bool
kvstore_parser_protocol fresh count = if count == 0 then pure false else do
  name ← read_text 0
  (λ c. done tt (record c { wbuf = replicate 1024 0 }))
  dispatch fresh (command (find_command commands name))
  pure true
