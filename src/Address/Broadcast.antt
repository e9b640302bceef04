-- ===== src/Address/Broadcast.antt =====
-- The bits of a broadcast address (socket/address.cpp).
use Prim.Native.Nat.{bit_or, bit_or-bitwise, digits, max}
use native.Mathlib.Nat.{pow-suc}
use co_kv.Prelude.{
  ℕ, zero, suc, ◌+◌, ◌-◌, ◌*◌, ◌/◌, ◌%◌, ◌^◌, ◌≤◌, ◌<◌, ◌≡◌, refl, sym, ◌∙◌, ap, true, false, some,
  arith, ltb, leb,
}
use co_kv.Prelude.Run.{done}
use co_kv.Address.{SockAddr, ByteOrder, complement, create_sub_net_mask, broadcast_address}

-- `n >> k`
unfoldable pub shift_right : ℕ → ℕ → ℕ
shift_right zero n = n
shift_right (suc k) n = shift_right k (n / 2)

-- The digits of `bit_or`, for a count of digits to go.
abbrev or_from : ℕ → ℕ → ℕ → ℕ
or_from count x y = digits (λ rest. rest) max count x y

-- Any count will do that the first number does not exceed.
or_from_any : (i x y : ℕ) → x ≤ i → or_from i x y ≡ bit_or x y
or_from_any i x y h = enough i x x y h (omega arith) ∙ sym (bit_or-bitwise x y)
  where
    enough : (i j x y : ℕ) → x ≤ i → x ≤ j → or_from i x y ≡ or_from j x y
    enough i j zero y h k = out i y ∙ sym (out j y)
      where
        out : (i y : ℕ) → or_from i 0 y ≡ y
        out zero y = refl
        out (suc i) y = refl
    enough zero j (suc x) y h k = absurd (omega arith)
    enough (suc i) zero (suc x) y h k = absurd (omega arith)
    enough (suc i) (suc j) (suc x) y h k =
        omega (arith, enough i j (suc x / 2) (y / 2) (omega arith) (omega arith))

-- The lowest digit of `bit_or`, and the others.
bit_or_halves : (x y : ℕ) → bit_or x y ≡ bit_or (x / 2) (y / 2) * 2 + max (x % 2) (y % 2)
bit_or_halves zero y = omega (arith, bit_or-bitwise 0 y, bit_or-bitwise 0 (y / 2))
bit_or_halves (suc x) y =
    omega (arith, bit_or-bitwise (suc x) y, or_from_any x (suc x / 2) (y / 2) (omega arith))

bit_or-zero_below : (bound x : ℕ) → x ≤ bound → bit_or x 0 ≡ x
bit_or-zero_below bound zero h = refl
bit_or-zero_below zero (suc x) h = absurd (omega arith)
bit_or-zero_below (suc bound) (suc x) h =
    omega (arith, bit_or_halves (suc x) 0, bit_or-zero_below bound (suc x / 2) (omega arith))

-- A number of k ones.
ones : ℕ → ℕ
ones zero = 0
ones (suc k) = ones k * 2 + 1

-- The low k bits are set.
fill : ℕ → ℕ → ℕ
fill zero a = a
fill (suc k) a = fill k (a / 2) * 2 + 1

bit_or-ones : (k a : ℕ) → bit_or a (ones k) ≡ fill k a
unfolding ones fill
bit_or-ones zero a = bit_or-zero_below a a (omega arith)
bit_or-ones (suc k) a =
    let e : (ones k * 2 + 1) / 2 ≡ ones k = omega arith in
    omega (arith, bit_or_halves a (ones k * 2 + 1), bit_or-ones k (a / 2), ap (bit_or (a / 2)) e)

pow-ones : (k : ℕ) → 2 ^ k ≡ ones k + 1
unfolding ones
pow-ones zero = refl
pow-ones (suc k) = omega (arith, pow-suc 2 k, pow-ones k)

ones_mono : (k n : ℕ) → k ≤ n → ones k ≤ ones n
unfolding ones
ones_mono zero n h = omega arith
ones_mono (suc k) zero h = absurd (omega arith)
ones_mono (suc k) (suc n) h = omega (arith, ones_mono k n (omega arith))

shift_right-fill : (k a : ℕ) → shift_right k (fill k a) ≡ shift_right k a
unfolding shift_right fill
shift_right-fill zero a = refl
shift_right-fill (suc k) a =
    let e : (fill k (a / 2) * 2 + 1) / 2 ≡ fill k (a / 2) = omega arith in
    ap (shift_right k) e ∙ shift_right-fill k (a / 2)

bit-fill : (k j a : ℕ) → j < k → shift_right j (fill k a) % 2 ≡ 1
unfolding shift_right fill
bit-fill zero j a h = absurd (omega arith)
bit-fill (suc k) zero a h = omega arith
bit-fill (suc k) (suc j) a h =
    let e : (fill k (a / 2) * 2 + 1) / 2 ≡ fill k (a / 2) = omega arith in
    ap (λ (n : ℕ). shift_right j n % 2) e ∙ bit-fill k j (a / 2) (omega arith)

mask-ones : (k : ℕ) → k ≤ 32 → complement (complement (2 ^ k - 1)) ≡ ones k
mask-ones k h =
    let m = ones_mono k 32 h in
    let top : ones 32 + 1 ≡ 2 ^ 32 = sym (pow-ones 32) in omega (arith, pow-ones k, m, top)

-- For a prefix from 2 to 32, the broadcast address of an address has, in the order of the host, the
-- same network part, and ones in all other bits. The family and the port stay as they are. (For the
-- prefixes 0 and 1 the mask is undefined.)
pub broadcast_address-bits :
    (o : ByteOrder) (prefix : ℕ) (a : SockAddr)
    → 2 ≤ prefix
    → prefix ≤ 32
    → a.s_addr < 2 ^ 32
    → (a' : SockAddr) × (broadcast_address o prefix a ≡ done (some a') tt)
      × (shift_right (32 - prefix) (o.ntohl a'.s_addr)
          ≡ shift_right (32 - prefix) (o.ntohl a.s_addr))
      × ((j : ℕ) → j < 32 - prefix → shift_right j (o.ntohl a'.s_addr) % 2 ≡ 1)
      × (a'.sin_family ≡ a.sin_family)
      × (a'.sin_port ≡ a.sin_port)
unfolding broadcast_address create_sub_net_mask
broadcast_address-bits o prefix a low high small =
    let k = 32 - prefix in
    let host = complement (complement (2 ^ k - 1)) in
    let ones_host : host ≡ ones k = mask-ones k (omega arith) in
    let fits : host < 2 ^ 32 =
      omega (arith, ones_host, ones_mono k 32 (omega arith), pow-ones 32) in
    let filled : o.ntohl (bit_or a.s_addr (o.htonl host)) ≡ fill k (o.ntohl a.s_addr) =
      o.ntohl-bit_or a.s_addr (o.htonl host) small (o.htonl-lt host fits)
      ∙ ap (bit_or (o.ntohl a.s_addr)) (o.ntohl-htonl host fits ∙ ones_host)
      ∙ bit_or-ones k (o.ntohl a.s_addr) in
    let not_long : ltb 32 prefix ≡ false = ground (arith, high) in
    let two : leb 2 prefix ≡ true = ground (arith, low) in
    let most : leb prefix 32 ≡ true = ground (arith, high) in
    (
      record a { s_addr = bit_or a.s_addr (o.htonl host) },
      rw (not_long, two, most) refl,
      ap (shift_right k) filled ∙ shift_right-fill k (o.ntohl a.s_addr),
      (λ j lt. ap (λ (n : ℕ). shift_right j n % 2) filled ∙ bit-fill k j (o.ntohl a.s_addr) lt),
      refl,
      refl,
    )
