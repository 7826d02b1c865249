-- ===== src/Buffer/Room.antt =====
-- The room that calls of `CBuffer::add` (src/teleclient.cpp) take in a slot: as long as their bytes
-- fit, none of them is refused.
use vorsprung_logger.Base.{
  ℕ, ◌+◌, ◌-◌, ◌*◌, ◌%◌, ◌≤◌, ◌<◌, ◌≡◌, refl, sym, ap, ◌∙◌, ltb, List, [], ◌∷◌, ◌++◌, append-nil,
  append_assoc, length, length-append, arith, sub32, u8_mod, true,
}
use vorsprung_logger.Buffer.{buffer_length, head_size, Buffer, offset, head_bytes, add}

-- A call of `add`.
pub record Call : Type 0 where
  pub pid : ℕ
  pub type : ℕ
  pub cells : List ℕ
  pub count : ℕ

abbrev pub add_all : List Call → Buffer → Buffer
add_all [] b = b
add_all (c ∷ cs) b = add_all cs (add c.pid c.type c.cells c.count b)

-- The bytes that the calls are to write.
abbrev pub bytes_of : List Call → List ℕ
bytes_of [] = []
bytes_of (c ∷ cs) = (head_bytes c.pid c.type c.count ++ c.cells) ++ bytes_of cs

-- A slot becomes another by calls of `add` with so many bytes at most.
pub record Room (k : ℕ) (b b' : Buffer) : Type 0 where
  pub calls : List Call
  pub made : b' ≡ add_all calls b
  pub small : length (bytes_of calls) ≤ k

add_all-append : (cs ds : List Call) (b : Buffer) → add_all (cs ++ ds) b ≡ add_all ds (add_all cs b)
add_all-append [] ds b = refl
add_all-append (c ∷ cs) ds b = add_all-append cs ds (add c.pid c.type c.cells c.count b)

length-bytes_of-append :
    (cs ds : List Call) → length (bytes_of (cs ++ ds)) ≡ length (bytes_of cs) + length (bytes_of ds)
length-bytes_of-append [] ds = omega arith
length-bytes_of-append (c ∷ cs) ds =
    let head = head_bytes c.pid c.type c.count ++ c.cells in
    omega (
      arith,
      length-append head (bytes_of (cs ++ ds)),
      length-append head (bytes_of cs),
      length-bytes_of-append cs ds,
    )

pub Room-none : (b : Buffer) → Room 0 b b
Room-none b = record { calls = []; made = refl; small = omega arith }

pub Room-add :
    (pid type count : ℕ) (cells : List ℕ) (b : Buffer)
    → Room (length cells + 4) b (add pid type cells count b)
Room-add pid type count cells b = record {
  calls = record { pid = pid; type = type; cells = cells; count = count } ∷ [];
  made = refl;
  small = omega (
    arith,
    length-append (head_bytes pid type count ++ cells) [],
    length-append (head_bytes pid type count) cells,
  );
}

pub Room-weaken : {k l : ℕ} {b b' : Buffer} → k ≤ l → Room k b b' → Room l b b'
Room-weaken le r = record { calls = r.calls; made = r.made; small = omega (arith, le, r.small) }

pub Room-trans : {k l : ℕ} {a b c : Buffer} → Room k a b → Room l b c → Room (k + l) a c
Room-trans {k} {l} {a} {b} {c} r s = record {
  calls = r.calls ++ s.calls;
  made = s.made ∙ ap (add_all s.calls) r.made ∙ sym (add_all-append r.calls s.calls a);
  small = omega (arith, length-bytes_of-append r.calls s.calls, r.small, s.small);
}

-- One call that fits.
add-fits :
    (c : Call) (b : Buffer)
    → offset b + 4 + length c.cells < buffer_length
    → let b' = add c.pid c.type c.cells c.count b in
      (b'.used ≡ b.used ++ (head_bytes c.pid c.type c.count ++ c.cells))
      × (b'.total ≡ (b.total + 1) % u8_mod)
unfolding add
add-fits c b fits =
    let go : ltb (offset b) (sub32 (buffer_length - head_size) (length c.cells)) ≡ true =
      ground arith in
    rw go (refl, refl)

-- Calls whose bytes fit are all accepted: their bytes stand in the slot, one element behind the
-- other, and the slot counts each.
pub add_all-fits :
    (cs : List Call) (b : Buffer)
    → offset b + length (bytes_of cs) < buffer_length
    → b.total + length cs < u8_mod
    → ((add_all cs b).used ≡ b.used ++ bytes_of cs) × ((add_all cs b).total ≡ b.total + length cs)
add_all-fits [] b fits few = (sym (append-nil b.used), omega arith)
add_all-fits (c ∷ cs) b fits few =
    let head = head_bytes c.pid c.type c.count ++ c.cells in
    let b' = add c.pid c.type c.cells c.count b in
    let long = length-append head (bytes_of cs) in
    let short = length-append (head_bytes c.pid c.type c.count) c.cells in
    let (used, total) = add-fits c b (omega (arith, long, short)) in
    let at = ap (λ (l : List ℕ). length l) used ∙ length-append b.used head in
    let (used', total') = add_all-fits cs b' (omega (arith, long, at)) (omega (arith, total)) in
    (
      used' ∙ ap (λ l. l ++ bytes_of cs) used ∙ append_assoc b.used head (bytes_of cs),
      omega (arith, total, total'),
    )

pub length-calls : (cs : List Call) → 4 * length cs ≤ length (bytes_of cs)
length-calls [] = omega arith
length-calls (c ∷ cs) = omega (
  arith,
  length-append (head_bytes c.pid c.type c.count ++ c.cells) (bytes_of cs),
  length-append (head_bytes c.pid c.type c.count) c.cells,
  length-calls cs,
)

-- A slot that had nothing has been filled by calls of `add` with `k` bytes at most. It holds one
-- element for each, one behind the other, and would accept a further one of up to `left` bytes.
pub record HasRoom (k left : ℕ) (b b' : Buffer) : Type 0 where
  pub calls : List Call
  pub made : b' ≡ add_all calls b
  pub small : length (bytes_of calls) ≤ k
  pub used : b'.used ≡ bytes_of calls
  pub total : b'.total ≡ length calls
  pub further :
      (c : Call)
      → 4 + length c.cells ≤ left
      → (add c.pid c.type c.cells c.count b').used
        ≡ b'.used ++ (head_bytes c.pid c.type c.count ++ c.cells)

pub Room-HasRoom :
    (k left : ℕ) (b b' : Buffer)
    → k + left < buffer_length
    → b.used ≡ []
    → b.total ≡ 0
    → Room k b b'
    → HasRoom k left b b'
Room-HasRoom k left b b' fits empty none_yet r =
    let at = ap (λ (l : List ℕ). length l) empty in
    let (used, total) =
      add_all-fits r.calls b (omega (arith, r.small, at))
        (omega (arith, length-calls r.calls, r.small)) in
    let used' = ap (λ (b : Buffer). b.used) r.made ∙ used ∙ ap (λ l. l ++ bytes_of r.calls) empty in
    let here = ap (λ (l : List ℕ). length l) used' in
    record {
      calls = r.calls;
      made = r.made;
      small = r.small;
      used = used';
      total = ap (λ (b : Buffer). b.total) r.made ∙ omega (arith, total);
      further = λ c le. (add-fits c b' (omega (arith, le, here, r.small))).0;
    }
