-- ===== src/Nodes/Reference.antt =====
-- A store that meets the laws of the commands: functions for the sets and the nodes, and a list for
-- the sticky keys, on which every command succeeds. SINTER finds ids below ten.
use proxydeck.Prelude.{
  ℕ, ◌≡◌, refl, sym, ap, Bool, true, false, ◌&&◌, List, [], ◌∷◌, Option, none, some, All, arith,
  Bool-cases, inl, inr, if◌then◌else◌,
}
use proxydeck.Errors.{Result, ok, err, record_not_found}
use proxydeck.Strings.{Text, text_eq, text_eq_refl, text_eq-eq}
use proxydeck.Strings.Number.{format_uint}
use proxydeck.Subscription.Protocol.{one_of}
use proxydeck.Model.{ProxyNode}
use proxydeck.Redis.{Err}
use proxydeck.Nodes.Commands.{NodeRedis, Command, member_after, entry_after}
use proxydeck.Nodes.Keys.{is_sticky}

abbrev pub Store : Type 0
Store = (Text → ℕ → Bool) × (Text → Option ProxyNode) × List (Text × ℕ)

abbrev pub pointed : List (Text × ℕ) → Text → Option ℕ
pointed [] k = none
pointed ((j, i) ∷ ps) k = if text_eq k j then some i else pointed ps k

abbrev pub as_result {ℓ} : {A : Type ℓ} → Option A → Result A
as_result none = err record_not_found
as_result (some a) = ok a

abbrev pub sticky_keys : List (Text × ℕ) → List Text
sticky_keys [] = []
sticky_keys ((j, i) ∷ ps) = let rest = sticky_keys ps in if is_sticky j then j ∷ rest else rest

abbrev pub without : List Text → List (Text × ℕ) → List (Text × ℕ)
without ks [] = []
without ks ((j, i) ∷ ps) = let rest = without ks ps in if one_of j ks then rest else (j, i) ∷ rest

abbrev pub in_every : (Text → ℕ → Bool) → List Text → ℕ → Bool
in_every m [] id = true
in_every m (k ∷ ks) id = m k id && in_every m ks id

abbrev pub pick_ids : (Text → ℕ → Bool) → List Text → List ℕ → List Text
pick_ids m ks [] = []
pick_ids m ks (id ∷ ids) =
    let rest = pick_ids m ks ids in if in_every m ks id then format_uint id ∷ rest else rest

pub as_result-ok {ℓ} : {A : Type ℓ} (o : Option A) (a : A) → as_result o ≡ ok a → o ≡ some a
as_result-ok none a h = cc
as_result-ok (some b) a h = cc

state_of : (s t : Store) → ◌≡◌ {A = Err × Store} (none, s) (none, t) → t ≡ s
state_of s t h = sym (ap (λ (p : Err × Store). p.1) h)

without-pointed :
    (ks : List Text) (ps : List (Text × ℕ)) (k : Text)
    → pointed (without ks ps) k ≡ (if one_of k ks then none else pointed ps k)
without-pointed ks [] k = ground arith
without-pointed ks ((j, i) ∷ ps) k = elim (Bool-cases (text_eq k j)) [
  | inl e ↦
      let p : k ≡ j = text_eq-eq k j e in
      elim (Bool-cases (one_of j ks)) [
        | inl o ↦ rw (o, without-pointed ks ps k, p) (rw o refl)
        | inr o ↦ rw (p, o, text_eq_refl j) refl
      ]
  | inr e ↦ elim (Bool-cases (one_of j ks)) [
    | inl o ↦ rw (o, without-pointed ks ps k, e) refl
    | inr o ↦ rw (o, e, without-pointed ks ps k) refl
  ]
]

sticky_keys-All : (ps : List (Text × ℕ)) → All (λ k. is_sticky k ≡ true) (sticky_keys ps)
sticky_keys-All [] = tt
sticky_keys-All ((j, i) ∷ ps) = elim (Bool-cases (is_sticky j)) [
  | inl e ↦ rw e (e, sticky_keys-All ps)
  | inr e ↦ rw e (sticky_keys-All ps)
]

sticky_keys-finds :
    (ps : List (Text × ℕ)) (k : Text) (i : ℕ)
    → is_sticky k ≡ true
    → pointed ps k ≡ some i
    → one_of k (sticky_keys ps) ≡ true
unfolding one_of
sticky_keys-finds [] k i s h = cc
sticky_keys-finds ((j, n) ∷ ps) k i s h = elim (Bool-cases (text_eq k j)) [
  | inl e ↦ let p : k ≡ j = text_eq-eq k j e in let q : is_sticky j ≡ true = cc in rw (q, e) refl
  | inr e ↦
      let ih : one_of k (sticky_keys ps) ≡ true = sticky_keys-finds ps k i s (ground arith) in
      elim (Bool-cases (is_sticky j)) [ inl f ↦ rw (f, e) ih | inr f ↦ rw f ih ]
]

in_every-All :
    (m : Text → ℕ → Bool) (ks : List Text) (id : ℕ)
    → in_every m ks id ≡ true
    → All (λ k. m k id ≡ true) ks
in_every-All m [] id h = tt
in_every-All m (k ∷ ks) id h = (ground arith, in_every-All m ks id (ground arith))

pick_ids-All :
    (m : Text → ℕ → Bool) (ks : List Text) (ids : List ℕ)
    → All (λ t. (id : ℕ) × (t ≡ format_uint id) × All (λ k. m k id ≡ true) ks) (pick_ids m ks ids)
pick_ids-All m ks [] = tt
pick_ids-All m ks (id ∷ ids) = elim (Bool-cases (in_every m ks id)) [
  | inl e ↦ rw e ((id, refl, in_every-All m ks id e), pick_ids-All m ks ids)
  | inr e ↦ rw e (pick_ids-All m ks ids)
]

abbrev pub ten : List ℕ
ten = 0 ∷ 1 ∷ 2 ∷ 3 ∷ 4 ∷ 5 ∷ 6 ∷ 7 ∷ 8 ∷ 9 ∷ []

abbrev pub put : Text → ℕ → Store → Store
put k i s = (s.0, s.1, (k, i) ∷ s.2)

abbrev pub delete : List Text → Store → Store
delete ks s = (
  λ k id. if one_of k ks then false else s.0 k id,
  λ k. if one_of k ks then none else s.1 k,
  without ks s.2,
)

abbrev pub run : List Command → Store → Store
run cs s = (λ k id. member_after k id cs (s.0 k id), λ k. entry_after k cs (s.1 k), s.2)

module _ (s t : Store) where
  pub put-eq :
      (k : Text) (i : ℕ)
      → ◌≡◌ {A = Err × Store} (none, put k i s) (none, t)
      → (pointed t.2 k ≡ some i)
        × ((j : Text) (id : ℕ) → t.0 j id ≡ s.0 j id)
        × ((j : Text) → t.1 j ≡ s.1 j)
  put-eq k i h = rw (state_of (put k i s) t h, text_eq_refl k) (refl, λ j id. refl, λ j. refl)

  pub delete-eq :
      (ks : List Text)
      → ◌≡◌ {A = Err × Store} (none, delete ks s) (none, t)
      → ((k : Text) → pointed t.2 k ≡ (if one_of k ks then none else pointed s.2 k))
        × ((k : Text) (id : ℕ) → t.0 k id ≡ (if one_of k ks then false else s.0 k id))
        × ((k : Text) → t.1 k ≡ (if one_of k ks then none else s.1 k))
  delete-eq ks h = rw (state_of (delete ks s) t h) (without-pointed ks s.2, λ k id. refl, λ k. refl)

  pub run-eq :
      (cs : List Command)
      → ◌≡◌ {A = Err × Store} (none, run cs s) (none, t)
      → ((k : Text) (id : ℕ) → t.0 k id ≡ member_after k id cs (s.0 k id))
        × ((k : Text) → t.1 k ≡ entry_after k cs (s.1 k))
        × ((k : Text) → pointed t.2 k ≡ pointed s.2 k)
  run-eq cs h = rw (state_of (run cs s) t h) (λ k id. refl, λ k. refl, λ k. refl)

pub keys-eq :
    (s : Store) (ks : List Text)
    → ◌≡◌ {A = Result (List Text)} (ok (sticky_keys s.2)) (ok ks)
    → All (λ k. is_sticky k ≡ true) ks
      × ((k : Text) (i : ℕ) → is_sticky k ≡ true → pointed s.2 k ≡ some i → one_of k ks ≡ true)
keys-eq s ks h =
    let e : ks ≡ sticky_keys s.2 = cc in rw e (sticky_keys-All s.2, sticky_keys-finds s.2)

pub s_inter-eq :
    (s : Store) (ks ms : List Text)
    → ◌≡◌ {A = Result (List Text)} (ok (pick_ids s.0 ks ten)) (ok ms)
    → All (λ t. (id : ℕ) × (t ≡ format_uint id) × All (λ k. s.0 k id ≡ true) ks) ms
s_inter-eq s ks ms h = let e : ms ≡ pick_ids s.0 ks ten = cc in rw e (pick_ids-All s.0 ks ten)

abbrev pub reference : NodeRedis
reference = record {
  State = Store;
  has = λ s. s.0;
  entry = λ s. s.1;
  pointer = λ s. pointed s.2;
  get_node = λ k s. as_result (s.1 k);
  get_uint = λ k s. as_result (pointed s.2 k);
  set_uint = λ k i s. (none, put k i s);
  keys = λ p s. ok (sticky_keys s.2);
  del = λ ks s. (none, delete ks s);
  s_inter = λ ks s. ok (pick_ids s.0 ks ten);
  exec = λ cs s. (none, run cs s);
  get_node_ok = λ k s a h. as_result-ok (s.1 k) a h;
  get_uint_ok = λ k s i h. as_result-ok (pointed s.2 k) i h;
  set_uint_ok = λ k i s t h. put-eq s t k i h;
  del_ok = λ ks s t h. delete-eq s t ks h;
  keys_ok = keys-eq;
  s_inter_ok = λ ks ms s h. s_inter-eq s ks ms h;
  exec_ok = λ cs s t h. run-eq s t cs h;
}
