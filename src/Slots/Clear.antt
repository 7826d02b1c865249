-- ===== src/Slots/Clear.antt =====
-- An empty slot holds nothing (src/teleclient.cpp), so that the slot which `getFree` hands out is
-- filled from its begin.
use vorsprung_logger.Base.{
  ℕ, zero, suc, ◌≡◌, refl, sym, ap, ◌∙◌, true, Bool-cases, inl, inr, List, [], ◌∷◌, Option, none,
  some, get_elem?, map, ltb, arith, All,
}
use mathlib.Core.Path.{subst}
use mathlib.Core.Option.{some-injective, none-ne-some}
use vorsprung_logger.Buffer as Buf
use vorsprung_logger.Buffer.{State, empty, filling, filled, locked, Buffer}
use vorsprung_logger.Slots.{
  Slots, purge, modify, free, is_empty, pick, lock, lock_picked, max_timestamp, later, get_oldest,
  get_newest, Turn, got, waits, locked_at, empty_at, wait_free, get_free,
}
use vorsprung_logger.Slots.Free.{Frees, spare, evicted, blocked, get_free-Frees}

pub record IsBlank (b : Buffer) : Type 0 where
  pub unused : b.used ≡ []
  pub uncounted : b.total ≡ 0

-- A slot that is empty is blank.
abbrev pub IsClear : Buffer → Type 0
IsClear b = is_empty b ≡ true → IsBlank b

abbrev pub AllClear : List Buffer → Type 0
AllClear = All IsClear

pub get_elem?-modify :
    (f : Buffer → Buffer) (bs : List Buffer) (i : ℕ) (b : Buffer)
    → get_elem? bs i ≡ some b
    → get_elem? (modify i f bs) i ≡ some (f b)
get_elem?-modify f [] i b at = absurd (none-ne-some b at)
get_elem?-modify f (c ∷ cs) zero b at = ap some (ap f (some-injective c b at))
get_elem?-modify f (c ∷ cs) (suc i) b at = get_elem?-modify f cs i b at

pub modify-AllClear :
    (f : Buffer → Buffer) (bs : List Buffer) (i : ℕ)
    → ((b : Buffer) → IsClear (f b))
    → AllClear bs
    → AllClear (modify i f bs)
modify-AllClear f [] i clear h = h
modify-AllClear f (b ∷ bs) zero clear h = (clear b, h.1)
modify-AllClear f (b ∷ bs) (suc i) clear h = (h.0, modify-AllClear f bs i clear h.1)

purge-IsBlank : (b : Buffer) → IsBlank (Buf.purge b)
unfolding Buf.purge
purge-IsBlank b = record { unused = refl; uncounted = refl }

empty_at-IsBlank :
    (bs : List Buffer) (i : ℕ) (b : Buffer)
    → AllClear bs
    → empty_at bs i ≡ true
    → get_elem? bs i ≡ some b
    → IsBlank b
empty_at-IsBlank [] i b h e at = absurd (none-ne-some b at)
empty_at-IsBlank (c ∷ cs) zero b h e at = subst IsBlank (some-injective c b at) (h.0 e)
empty_at-IsBlank (c ∷ cs) (suc i) b h e at = empty_at-IsBlank cs i b h.1 e at

purged_at :
    (bs : List Buffer) (i : ℕ) (b : Buffer)
    → get_elem? (modify i Buf.purge bs) i ≡ some b
    → IsBlank b
purged_at [] i b at = absurd (none-ne-some b at)
purged_at (c ∷ cs) zero b at = subst IsBlank (some-injective (Buf.purge c) b at) (purge-IsBlank c)
purged_at (c ∷ cs) (suc i) b at = purged_at cs i b at

-- A turn leaves the empty slots blank, and hands out a blank one if it hands one out.
abbrev pub HandsOut : Turn → Type 0
HandsOut (waits i m) = AllClear m.slots
HandsOut (got i m) = AllClear m.slots × ((b : Buffer) → get_elem? m.slots i ≡ some b → IsBlank b)

Frees-HandsOut : (bs : List Buffer) (t : Turn) → AllClear bs → Frees bs t → HandsOut t
Frees-HandsOut bs _ clear (spare i m e same last) = (
  subst AllClear (sym same) clear,
  λ b at. empty_at-IsBlank bs i b clear e (ap (λ l. get_elem? l i) (sym same) ∙ at),
)
Frees-HandsOut bs _ clear (evicted i m h v k same last) = (
  subst AllClear (sym same) (modify-AllClear Buf.purge bs i (λ b e. purge-IsBlank b) clear),
  λ b at. purged_at bs i b (ap (λ l. get_elem? l i) (sym same) ∙ at),
)
Frees-HandsOut bs _ clear (blocked i m h v k same last) = subst AllClear (sym same) clear

pub get_free-HandsOut : (m : Slots) → AllClear m.slots → HandsOut (get_free m)
get_free-HandsOut m clear = Frees-HandsOut m.slots (get_free m) clear (get_free-Frees m)

pub wait_free-HandsOut : (i : ℕ) (m : Slots) → AllClear m.slots → HandsOut (wait_free i m)
unfolding wait_free
wait_free-HandsOut i m clear = elim (Bool-cases (locked_at m.slots i)) [
  | inl e ↦ rw e clear
  | inr e ↦ rw e (
    modify-AllClear Buf.purge m.slots i (λ b e. purge-IsBlank b) clear,
    λ b at. purged_at m.slots i b at,
  )
]

pub map-purge-AllClear :
    {A : Type 0} (g : A → Buffer) (xs : List A) → AllClear (map (λ x. Buf.purge (g x)) xs)
map-purge-AllClear g [] = tt
map-purge-AllClear g (x ∷ xs) = (λ e. purge-IsBlank (g x), map-purge-AllClear g xs)

-- A call of the other task on the slots.
pub data Touches (m : Slots) : Slots → Type 0 where
  oldest : Touches m (get_oldest m).1
  newest : Touches m (get_newest m).1
  freed : (i : ℕ) → Touches m (free i m)
  purged : Touches m (purge m)

lock_picked-AllClear :
    (o : Option ℕ) (m : Slots) → AllClear m.slots → AllClear (lock_picked o m).1.slots
lock_picked-AllClear none m clear = clear
lock_picked-AllClear (some i) m clear =
    modify-AllClear lock m.slots i (λ b e. absurd (ground (arith, e))) clear

pub Touches-AllClear : {m n : Slots} → AllClear m.slots → Touches m n → AllClear n.slots
unfolding get_oldest get_newest free purge
Touches-AllClear {m} clear oldest =
    lock_picked-AllClear (pick ltb m.slots 0 none max_timestamp) m clear
Touches-AllClear {m} clear newest = lock_picked-AllClear (pick later m.slots 0 none 0) m clear
Touches-AllClear {m} clear (freed i) =
    modify-AllClear Buf.purge m.slots i (λ b e. purge-IsBlank b) clear
Touches-AllClear {m} clear purged = map-purge-AllClear (λ b. b) m.slots
