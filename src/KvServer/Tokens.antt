-- ===== src/KvServer/Tokens.antt =====
-- `kvstore_skiplist_token` cuts the text of a request into its words.
use co_kv.Prelude.{
  ℕ, zero, suc, ◌+◌, ◌-◌, ◌≤◌, ◌≡◌, refl, ◌∙◌, ap, Bool, true, false, Option, none, some, List, [],
  ◌∷◌, arith, ◌==◌, if◌then◌else◌, Bool-cases, inl, inr, length, get_elem?,
}
use co_kv.Prelude.Run.{done}
use co_kv.SkipList.Memory.{Bytes}
use co_kv.Text.{push, c_string, string_at}
use co_kv.KvServer.{Conn, strtok, store_tokens, kvstore_skiplist_token, text_at, blank}

-- The bytes before the first blank.
unfoldable pub take_word : Bytes → Bytes
take_word [] = []
take_word (c ∷ cs) = if c == blank then [] else c ∷ take_word cs

-- The words of a text: the maximal runs without a blank. The flag says that a word has begun.
unfoldable pub words : Bool → Bytes → List Bytes
words b [] = []
words b (c ∷ cs) =
    let outside = words false cs in
    let begun = if b then words true cs else take_word (c ∷ cs) ∷ words true cs in
    if c == blank then outside else begun

-- The tokens at the offsets `ps` of a buffer that begins at offset `i` are the words `ws`.
abbrev Reads : ℕ → Bytes → List ℕ → List Bytes → Type 0
Reads i buf [] [] = Unit
Reads i buf [] (w ∷ ws) = ⊥
Reads i buf (p ∷ ps) [] = ⊥
Reads i buf (p ∷ ps) (w ∷ ws) = (i ≤ p) × (string_at (p - i) buf ≡ some w) × Reads i buf ps ws

string_at-suc :
    (i p c : ℕ) (buf : Bytes)
    → i + 1 ≤ p
    → string_at (p - i) (c ∷ buf) ≡ string_at (p - (i + 1)) buf
unfolding string_at
string_at-suc i p c buf h =
    let e : p - i ≡ suc (p - (i + 1)) = omega arith in ap (λ (k : ℕ). string_at k (c ∷ buf)) e

Reads-cons :
    (i c : ℕ) (buf : Bytes) (ps : List ℕ) (ws : List Bytes)
    → Reads (i + 1) buf ps ws
    → Reads i (c ∷ buf) ps ws
Reads-cons i c buf [] [] h = tt
Reads-cons i c buf [] (w ∷ ws) h = h
Reads-cons i c buf (p ∷ ps) [] h = h
Reads-cons i c buf (p ∷ ps) (w ∷ ws) (a, b, h) =
    (omega arith, string_at-suc i p c buf a ∙ b, Reads-cons i c buf ps ws h)

-- What the scan of a buffer with text `t` leaves.
record Scanned (b : Bool) (i : ℕ) (cs t : Bytes) : Type 0 where
  starts : List ℕ
  buf : Bytes
  runs : strtok b i cs ≡ some (starts, buf)
  reads : Reads i buf starts (words b t)
  begun : b ≡ true → c_string buf ≡ some (take_word t)
  same : length buf ≡ length cs

c_string-cons :
    (c : ℕ) (cs t : Bytes)
    → (c == 0) ≡ false
    → c_string (c ∷ cs) ≡ some t
    → (t' : Bytes) × (t ≡ c ∷ t') × (c_string cs ≡ some t')
unfolding c_string
c_string-cons c cs t e h = by_rest (c_string cs) refl
  where
    by_rest :
        (r : Option Bytes) → c_string cs ≡ r → (t' : Bytes) × (t ≡ c ∷ t') × (c_string cs ≡ some t')
    by_rest none q = absurd (cc (let k : push c (c_string cs) ≡ some t = rw e at h in k, q))
    by_rest (some t') q = (t', cc (let k : push c (c_string cs) ≡ some t = rw e at h in k, q), q)

module _ (b : Bool) (i c : ℕ) (cs t : Bytes) (ne : (c == 0) ≡ false) where
  scan_blank : (c == blank) ≡ true → Scanned false (i + 1) cs t → Scanned b i (c ∷ cs) (c ∷ t)
  unfolding strtok words take_word c_string
  scan_blank e s = record {
    starts = s.starts;
    buf = (if b then 0 else c) ∷ s.buf;
    runs = rw (ne, e, s.runs);
    reads = rw e (Reads-cons i (if b then 0 else c) s.buf s.starts (words false t) s.reads);
    begun = λ h. rw (e, h);
    same = ap suc s.same;
  }

scan_inside :
    (i c : ℕ) (cs t : Bytes)
    → (c == 0) ≡ false
    → (c == blank) ≡ false
    → Scanned true (i + 1) cs t
    → Scanned true i (c ∷ cs) (c ∷ t)
unfolding strtok words take_word c_string
scan_inside i c cs t ne e s = record {
  starts = s.starts;
  buf = c ∷ s.buf;
  runs = rw (ne, e, s.runs);
  reads = rw e (Reads-cons i c s.buf s.starts (words true t) s.reads);
  begun = λ h. rw (ne, e, s.begun refl);
  same = ap suc s.same;
}

scan_begin :
    (i c : ℕ) (cs t : Bytes)
    → (c == 0) ≡ false
    → (c == blank) ≡ false
    → Scanned true (i + 1) cs t
    → Scanned false i (c ∷ cs) (c ∷ t)
unfolding strtok words take_word c_string string_at
scan_begin i c cs t ne e s = record {
  starts = i ∷ s.starts;
  buf = c ∷ s.buf;
  runs = rw (ne, e, s.runs);
  reads = rw e (
    omega arith,
    (let z : i - i ≡ 0 = omega arith in rw (z, ne, s.begun refl)),
    Reads-cons i c s.buf s.starts (words true t) s.reads,
  );
  begun = λ h. cc;
  same = ap suc s.same;
}

scan_other :
    (b : Bool) (i c : ℕ) (cs t : Bytes)
    → (c == 0) ≡ false
    → (c == blank) ≡ false
    → Scanned true (i + 1) cs t
    → Scanned b i (c ∷ cs) (c ∷ t)
scan_other true = scan_inside
scan_other false = scan_begin

scan_end :
    (b : Bool) (i c : ℕ) (cs t : Bytes)
    → (c == 0) ≡ true
    → c_string (c ∷ cs) ≡ some t
    → Scanned b i (c ∷ cs) t
unfolding strtok words take_word c_string
scan_end b i c cs [] z h = record {
  starts = [];
  buf = c ∷ cs;
  runs = rw z;
  reads = tt;
  begun = λ _. h;
  same = refl;
}
scan_end b i c cs (x ∷ t) z h = absurd (ground arith)

no_string : (t : Bytes) → c_string [] ≡ some t → ⊥
unfolding c_string
no_string t h = cc

strtok-words : (b : Bool) (i : ℕ) (cs t : Bytes) → c_string cs ≡ some t → Scanned b i cs t
strtok-words b i [] t h = absurd (no_string t h)
strtok-words b i (c ∷ cs) t h = elim (Bool-cases (c == 0)) [
  | inl z ↦ scan_end b i c cs t z h
  | inr ne ↦
      let (t', e, h') = c_string-cons c cs t ne h in
      rw e (elim (Bool-cases (c == blank)) [
        | inl s ↦ scan_blank b i c cs t' ne s (strtok-words false (i + 1) cs t' h')
        | inr s ↦ scan_other b i c cs t' ne s (strtok-words true (i + 1) cs t' h')
      ])
]

Reads-length :
    (i : ℕ) (buf : Bytes) (ps : List ℕ) (ws : List Bytes)
    → Reads i buf ps ws
    → length ps ≡ length ws
Reads-length i buf [] [] h = refl
Reads-length i buf [] (w ∷ ws) h = absurd h
Reads-length i buf (p ∷ ps) [] h = absurd h
Reads-length i buf (p ∷ ps) (w ∷ ws) h = ap suc (Reads-length i buf ps ws h.2)

Reads-get :
    (buf : Bytes) (ps : List ℕ) (ws : List Bytes) (k : ℕ) (w : Bytes)
    → Reads 0 buf ps ws
    → get_elem? ws k ≡ some w
    → (p : ℕ) × (get_elem? ps k ≡ some p) × (string_at p buf ≡ some w)
Reads-get buf [] [] k w h e = absurd (cc)
Reads-get buf [] (x ∷ ws) k w h e = absurd h
Reads-get buf (p ∷ ps) [] k w h e = absurd h
Reads-get buf (p ∷ ps) (x ∷ ws) zero w h e =
    let z : p - 0 ≡ p = omega arith in (p, refl, cc (h.1, ap (λ (q : ℕ). string_at q buf) z))
Reads-get buf (p ∷ ps) (x ∷ ws) (suc k) w h e = Reads-get buf ps ws k w h.2 e

-- The tokens overwrite the first slots, and the later ones keep their pointers.
record Stored (ps : List ℕ) (slots : List (Option ℕ)) : Type 0 where
  slots' : List (Option ℕ)
  runs : store_tokens ps slots ≡ some slots'
  new : (k p : ℕ) → get_elem? ps k ≡ some p → get_elem? slots' k ≡ some (some p)
  old : (k : ℕ) → length ps ≤ k → get_elem? slots' k ≡ get_elem? slots k
  room : length slots' ≡ length slots

store_tokens-Stored :
    (ps : List ℕ) (slots : List (Option ℕ)) → length ps ≤ length slots → Stored ps slots
unfolding store_tokens
store_tokens-Stored [] slots h = record {
  slots' = slots;
  runs = refl;
  new = λ k p e. cc;
  old = λ k e. refl;
  room = refl;
}
store_tokens-Stored (p ∷ ps) [] h = absurd (omega arith)
store_tokens-Stored (p ∷ ps) (q ∷ slots) h =
    let r : Stored ps slots = store_tokens-Stored ps slots (omega arith) in
    record {
      slots' = some p ∷ r.slots';
      runs = rw r.runs;
      new = elim [ zero ↦ λ p' e. cc | suc k ↦ λ p' e. r.new k p' e ];
      old = elim [ zero ↦ λ e. absurd (omega arith) | suc k ↦ λ e. r.old k (omega arith) ];
      room = ap suc r.room;
    }

token_run :
    (c : Conn) (starts : List ℕ) (buf : Bytes) (slots : List (Option ℕ))
    → strtok false 0 c.rbuf ≡ some (starts, buf)
    → store_tokens starts c.kvlist ≡ some slots
    → kvstore_skiplist_token c ≡ done (length starts) (record c { rbuf = buf; kvlist = slots })
unfolding kvstore_skiplist_token
token_run c starts buf slots h k = ground (arith, h, k)

text_at-slot :
    (k : ℕ) (c : Conn) (p : ℕ)
    → get_elem? c.kvlist k ≡ some (some p)
    → text_at k c ≡ string_at p c.rbuf
unfolding text_at
text_at-slot k c p h = ground (arith, h)

-- A request whose text has a NUL behind it, and no more words than there is room for, is cut into
-- its words: the slots of the words point to them, the later slots keep their pointers, and the
-- result is the number of words. Nothing else but the buffer changes, and the buffer and the slots
-- keep their sizes.
pub kvstore_skiplist_token-words :
    (c : Conn) (t : Bytes)
    → c_string c.rbuf ≡ some t
    → length (words false t) ≤ length c.kvlist
    → (c' : Conn) × (kvstore_skiplist_token c ≡ done (length (words false t)) c')
      × ((k : ℕ) (w : Bytes) → get_elem? (words false t) k ≡ some w → text_at k c' ≡ some w)
      × ((k : ℕ) → length (words false t) ≤ k → get_elem? c'.kvlist k ≡ get_elem? c.kvlist k)
      × (c'.store ≡ c.store)
      × (c'.wbuf ≡ c.wbuf)
      × (length c'.rbuf ≡ length c.rbuf)
      × (length c'.kvlist ≡ length c.kvlist)
kvstore_skiplist_token-words c t h room =
    let s = strtok-words false 0 c.rbuf t h in
    let n = Reads-length 0 s.buf s.starts (words false t) s.reads in
    let r = store_tokens-Stored s.starts c.kvlist (rw n room) in
    (
      record c { rbuf = s.buf; kvlist = r.slots' },
      token_run c s.starts s.buf r.slots' s.runs r.runs
          ∙ ap (λ (m : ℕ). done m (record c { rbuf = s.buf; kvlist = r.slots' })) n,
      (λ k w e.
          let (p, a, b) = Reads-get s.buf s.starts (words false t) k w s.reads e in
          text_at-slot k (record c { rbuf = s.buf; kvlist = r.slots' }) p (r.new k p a) ∙ b),
      (λ k e. r.old k (rw n e)),
      refl,
      refl,
      s.same,
      r.room,
    )
