-- ===== src/KvServer/Request.antt =====
-- The protocol of the server as a function of requests and dictionaries.
use co_kv.Prelude.{◌≡◌, some, [], ◌∷◌, ◌++◌, if◌then◌else◌, is_some}
use co_kv.SkipList.Memory.{Bytes}
use co_kv.SkipList.Lookup.{value_or_empty}
use co_kv.SkipList.Dict.{Dict, put, drop}
use co_kv.Text.{to_string, bytes_order, overlay, until_nul, take, replicate}
use co_kv.KvServer.{Conn, codes, text_at, commands, find_command}

pub data Request : Type 0 where
  set modify : Bytes → Bytes → Request
  get del : Bytes → Request
  count : Request
  wrong : Bytes → Request

-- The dictionary and the text that a request leads to.
unfoldable pub respond : Request → Dict Bytes → Dict Bytes × Bytes
respond (set k v) m =
    if is_some (m.value k) then (m, codes "EXIST") else (put m k v, codes "SUCCESS")
respond (get k) m =
    (m, if is_some (m.value k) then value_or_empty (m.value k) else codes "Not Found")
respond (del k) m = if is_some (m.value k) then (drop m k, []) else (m, codes "Not Found")
respond (modify k v) m =
    if is_some (m.value k) then (put (drop m k) k v, []) else (m, codes "Not Found")
respond count m = (m, to_string m.count)
respond (wrong w) m = (m, codes "Wrong Operation")

-- The connection holds the texts of a request: those that the request needs, and maybe more.
abbrev pub Asks : Conn → Request → Type 0
Asks c (set k v) =
    (text_at 0 c ≡ some (codes "SKSET")) × (text_at 1 c ≡ some k) × (text_at 2 c ≡ some v)
Asks c (get k) = (text_at 0 c ≡ some (codes "SKGET")) × (text_at 1 c ≡ some k)
Asks c (del k) = (text_at 0 c ≡ some (codes "SKDEL")) × (text_at 1 c ≡ some k)
Asks c (modify k v) =
    (text_at 0 c ≡ some (codes "SKMOD")) × (text_at 1 c ≡ some k) × (text_at 2 c ≡ some v)
Asks c count = text_at 0 c ≡ some (codes "SKCOUNT")
Asks c (wrong w) = (text_at 0 c ≡ some w) × (find_command commands w ≡ 5)

-- The 1024 bytes that are sent for a text: its first 1023 bytes before a NUL, and NULs.
unfoldable pub reply_buffer : Bytes → Bytes
reply_buffer text = overlay (take 1023 (until_nul text) ++ 0 ∷ []) (replicate 1024 0)
