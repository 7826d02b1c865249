-- ===== src/Examples/Memory.antt =====
-- A card in memory, which does what `Spool.Media` asks of a card: a list of names and the bytes of
-- each file.
use vorsprung_logger.Base.{
  ℕ, ◌≡◌, refl, Bool, true, false, ◌==◌, ◌&&◌, if◌then◌else◌, List, [], ◌∷◌, ◌++◌, Option, none,
  some, length, take, drop, arith, Bool-cases, and-eq-true,
}
use mathlib.Core.Path.{subst}
use mathlib.Core.Option.{some-injective}
use mathlib.Core.Logic.{inl, inr}
use vorsprung_logger.Spool.Media.{Card, IsCard}

abbrev pub same_path : List ℕ → List ℕ → Bool
same_path [] [] = true
same_path [] (y ∷ ys) = false
same_path (x ∷ xs) [] = false
same_path (x ∷ xs) (y ∷ ys) = x == y && same_path xs ys

same_path_refl : (p : List ℕ) → same_path p p ≡ true
same_path_refl [] = refl
same_path_refl (x ∷ xs) = ground (arith, same_path_refl xs)

same_path→eq : (p q : List ℕ) → same_path p q ≡ true → p ≡ q
same_path→eq [] [] h = refl
same_path→eq [] (y ∷ ys) h = cc
same_path→eq (x ∷ xs) [] h = cc
same_path→eq (x ∷ xs) (y ∷ ys) h =
    let (one, more) = and-eq-true (x == y) (same_path xs ys) h in
    ground (arith, same_path→eq xs ys more)

pub record Files : Type 0 where
  pub listed : List (List ℕ)
  pub bytes : List ℕ → Option (List ℕ)

abbrev pub put_file : List ℕ → Option (List ℕ) → Files → Files
put_file p v fs = record fs { bytes = λ q. if same_path p q then v else fs.bytes q }

abbrev pub cells_of : Option (List ℕ) → List ℕ
cells_of none = []
cells_of (some cells) = cells

abbrev pub memory_card : Card
memory_card = record {
  Fs = Files;
  begin = λ fs. (true, fs);
  has_folder = λ fs. true;
  make_folder = λ fs. fs;
  names = λ fs. fs.listed;
  open_write = λ fs p.
      some (put_file p (some (cells_of (fs.bytes p))) (record fs { listed = p ∷ fs.listed }));
  open_read = λ fs p. true;
  write = λ fs p bs. (length bs, put_file p (some (cells_of (fs.bytes p) ++ bs)) fs);
  flush = λ fs p. fs;
  close = λ fs p. fs;
  read = λ fs p at n. take n (drop at (cells_of (fs.bytes p)));
  size = λ fs p. length (cells_of (fs.bytes p));
  remove = λ fs p. put_file p none fs;
}

abbrev pub content : Files → List ℕ → Option (List ℕ)
content fs p = fs.bytes p

pub memory_card-IsCard : IsCard memory_card content
memory_card-IsCard = record {
  opened = λ fs p fs' h e.
      subst (λ (f : Files). f.bytes p ≡ some []) (some-injective _ _ e) (rw (same_path_refl p, h));
  written = λ fs p bs old h k. rw (same_path_refl p, h);
  flushed = λ fs p q. refl;
  closed = λ fs p q. refl;
  read_is = λ fs p cells at n h. rw h;
  size_is = λ fs p cells h. rw h;
  removed = λ fs p. rw (same_path_refl p);
  kept = λ fs p q n. elim (Bool-cases (same_path p q)) [
    | inl e ↦ absurd (n (same_path→eq p q e))
    | inr e ↦ rw e
  ];
}
