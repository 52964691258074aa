-- ===== src/Redis/Reference.antt =====
-- A store that meets the laws of the interface: a function from keys to numbers, on which every
-- command succeeds.
use proxydeck.Prelude.{◌≡◌, sym, ap, List, [], ◌∷◌, none, if◌then◌else◌}
use proxydeck.Prelude.Int.{ℤ, pos, ◌+ℤ◌, ◌-ℤ◌}
use proxydeck.Errors.{Result, ok}
use proxydeck.Strings.{Text, text_eq}
use proxydeck.Redis.{Redis, Err}

abbrev pub Counters : Type 0
Counters = Text → ℤ

abbrev pub update : Counters → Text → ℤ → Counters
update s k n j = if text_eq j k then n else s j

abbrev pub delete_all : List Text → Counters → Counters
delete_all [] s = s
delete_all (k ∷ ks) s = update (delete_all ks s) k (pos 0)

pub ok-eq : (m n : ℤ) → ◌≡◌ {A = Result ℤ} (ok m) (ok n) → n ≡ m
ok-eq m n h = cc

pub incr-eq :
    (k : Text) (s : Counters) (n : ℤ) (t : Counters)
    → ◌≡◌ {A = Result ℤ × Counters} (ok (s k +ℤ pos 1), update s k (s k +ℤ pos 1)) (ok n, t)
    → (n ≡ s k +ℤ pos 1) × ((j : Text) → t j ≡ (if text_eq j k then s k +ℤ pos 1 else s j))
incr-eq k s n t h = (
  ok-eq _ _ (ap (λ (p : Result ℤ × Counters). p.0) h),
  λ j. sym (ap (λ (p : Result ℤ × Counters). p.1 j) h),
)

pub write-eq :
    (k : Text) (s t : Counters) (m : ℤ)
    → ◌≡◌ {A = Err × Counters} (none, update s k m) (none, t)
    → (j : Text) → t j ≡ (if text_eq j k then m else s j)
write-eq k s t m h j = sym (ap (λ (p : Err × Counters). p.1 j) h)

abbrev pub reference : Redis
reference = record {
  State = Counters;
  counter = λ s. s;
  get = λ k s. ok (s k);
  incr = λ k s. (ok (s k +ℤ pos 1), update s k (s k +ℤ pos 1));
  decr = λ k s. (none, update s k (s k -ℤ pos 1));
  del = λ ks s. (none, delete_all ks s);
  keys = λ p s. ok [];
  get_ok = λ k s n h. ok-eq (s k) n h;
  incr_ok = incr-eq;
  decr_ok = λ k s t h. write-eq k s t (s k -ℤ pos 1) h;
  del_ok = λ k s t h. write-eq k s t (pos 0) h;
}
