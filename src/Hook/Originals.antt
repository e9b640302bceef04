-- ===== src/Hook/Originals.antt =====
-- The system's own functions behind the hooks of hook/hook.cpp, and how they are looked up. What `dlsym`
-- returns for a name is an argument.
use co_kv.Prelude.{ℕ, ◌≡◌, refl, Bool, false, Option, if◌then◌else◌}

-- HOOK_FUN
pub data HookFun : Type 0 where
  socket accept read recv write send close : HookFun

-- The static `is_inited`, the pointers `socket_f` and so on, and `s_tcp_connect_timeout`.
pub record Originals : Type 0 where
  pub is_inited : Bool
  pub found : HookFun → Option ℕ
  pub tcp_connect_timeout : ℕ

unfoldable pub hook_init : (HookFun → Option ℕ) → Originals → Originals
hook_init dlsym o = if o.is_inited then o else record o { found = dlsym }

-- `HookIniter()`
unfoldable pub construct_initer : (HookFun → Option ℕ) → Originals → Originals
unfolding hook_init
construct_initer dlsym o = record (hook_init dlsym o) { tcp_connect_timeout = 5000 }

-- Nothing sets `is_inited`, so that each call looks all functions up anew.
pub hook_init-fresh :
    (dlsym dlsym' : HookFun → Option ℕ) (o : Originals)
    → o.is_inited ≡ false
    → ((hook_init dlsym o).is_inited ≡ false)
      × ((hook_init dlsym' (hook_init dlsym o)).found ≡ dlsym')
unfolding hook_init
hook_init-fresh dlsym dlsym' o h = (rw h refl, rw h refl)
