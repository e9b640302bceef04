-- ===== src/FdManager.antt =====
-- fd_manager/fd_manager.cpp: what is known of each descriptor, and the table of it. The locks are
-- left out: each operation is one step.
pub mod Table
use co_kv.Prelude.{
  ℕ, zero, suc, ◌+◌, ◌-◌, ◌*◌, ◌/◌, ◌^◌, Bool, true, false, not, ◌||◌, Option, none, some, List, [],
  ◌∷◌, leb, ◌==◌, if◌then◌else◌, length, set, is_some, ℤ, pos, negsuc,
}
use co_kv.Prelude.Run.{Run, done, fault, Cmd}
use co_kv.Prelude.Vector.{resize, slot}

-- class FdCtx. A timeout is a uint64_t, and -1 is its greatest value.
pub record FdCtx : Type 0 where
  pub is_init : Bool
  pub is_socket : Bool
  pub sys_nonblock : Bool
  pub user_nonblock : Bool
  pub is_closed : Bool
  pub fd : ℕ
  pub recv_timeout : ℕ
  pub send_timeout : ℕ

-- The greatest uint64_t.
abbrev pub no_timeout : ℕ
no_timeout = 2 ^ 64 - 1

-- The members behind `init`.
abbrev pub made : ℕ → Bool → Bool → FdCtx
made fd ok sock = record {
  is_init = ok;
  is_socket = sock;
  sys_nonblock = sock;
  user_nonblock = false;
  is_closed = false;
  fd = fd;
  recv_timeout = no_timeout;
  send_timeout = no_timeout;
}

-- The table with the flag O_NONBLOCK of each descriptor, which the kernel keeps.
pub record FdTable : Type 0 where
  pub datas : List (Option FdCtx)
  pub nonblock : ℕ → Bool

-- `FdManager::FdManager`
unfoldable pub new_table : (ℕ → Bool) → FdTable
unfolding resize
new_table flags = record { datas = resize 64 []; nonblock = flags }

-- `resize(fd * 1.5)` where the table is too short, and `m_datas[fd] = ctx`.
unfoldable pub enlarge : ℕ → List (Option FdCtx) → List (Option FdCtx)
enlarge fd datas = if leb (length datas) fd then resize (fd * 3 / 2) datas else datas

-- What `fstat` says of a descriptor: `none` is the result -1, else whether it is a socket.
module _ (fstat : ℕ → Option Bool) where
  -- `FdCtx::init` for a fresh context, with the flags behind it.
  unfoldable pub init : ℕ → (ℕ → Bool) → FdCtx × (ℕ → Bool)
  init fd flags =
      let set_flag : ℕ → Bool = λ k. if k == fd then true else flags k in
      elim (fstat fd) [
        | none ↦ (made fd false false, flags)
        | some sock ↦
            (made fd true sock, if sock then (if flags fd then flags else set_flag) else flags)
      ]

  unfoldable pub create : ℕ → Cmd FdTable (Option FdCtx)
  create fd t =
      let (ctx, flags) = init fd t.nonblock in
      let room = enlarge fd t.datas in
      if leb (length room) fd
      then fault
      else done (some ctx) (record { datas = set room fd (some ctx); nonblock = flags })

  -- `FdManager::get`. A negative descriptor indexes the table before its start.
  unfoldable pub get : ℤ → Bool → Cmd FdTable (Option FdCtx)
  get (negsuc n) auto_create t = fault
  get (pos fd) auto_create t =
      if fd == 1
      then done none t
      else if leb (length t.datas) fd
      then (if auto_create then create fd t else done none t)
      else if is_some (slot t.datas fd) || not auto_create
      then done (slot t.datas fd) t
      else create fd t

-- `FdManager::del`
unfoldable pub del : ℤ → Cmd FdTable (Unit {0})
del (negsuc n) t = fault
del (pos fd) t =
    if leb (length t.datas) fd
    then done tt t
    else done tt (record t { datas = set t.datas fd none })

-- The kinds of timeout: SO_RCVTIMEO, and any other number.
pub data TimeoutKind : Type 0 where
  rcvtimeo other : TimeoutKind

unfoldable pub set_timeout : TimeoutKind → ℕ → FdCtx → FdCtx
set_timeout rcvtimeo v c = record c { recv_timeout = v }
set_timeout other v c = record c { send_timeout = v }

unfoldable pub get_timeout : TimeoutKind → FdCtx → ℕ
get_timeout rcvtimeo c = c.recv_timeout
get_timeout other c = c.send_timeout

-- `FdCtx::setUserNonblock` and `FdCtx::setSysNonblock`
unfoldable pub set_user_nonblock : Bool → FdCtx → FdCtx
set_user_nonblock v c = record c { user_nonblock = v }

unfoldable pub set_sys_nonblock : Bool → FdCtx → FdCtx
set_sys_nonblock v c = record c { sys_nonblock = v }
