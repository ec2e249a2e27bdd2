-- ===== src/Registry/Slots.antt =====
-- Every id of session/registry.go is in the pool, in use, or lost, and never two of these.
use veidemann_browser_contro.Prelude.{
  ℕ, zero, suc, ◌+◌, ◌<◌, ◌≡◌, refl, sym, ap, ◌∙◌, Option, none, some, List, [], ◌∷◌, ◌++◌, ◌==◌,
  ltb, length, get_elem?, get_elem?-set_self, get_elem?-set_ne, set, replicate, if◌then◌else◌,
  arith, some_inj, dec_lt, subst,
}
use veidemann_browser_contro.Registry.{Registry, upwards, count_sessions, new_registry}

abbrev pub count : ℕ → List ℕ → ℕ
count i [] = 0
count i (x ∷ xs) = (if x == i then 1 else 0) + count i xs

pub count-append : (i : ℕ) (xs ys : List ℕ) → count i (xs ++ ys) ≡ count i xs + count i ys
count-append i [] ys = omega arith
count-append i (x ∷ xs) ys = omega (arith, count-append i xs ys)

-- 1 if a session stands at the index.
abbrev pub occupied_at {ℓ} : {S : Type ℓ} → Option (Option S) → ℕ
occupied_at (some (some s)) = 1
occupied_at _ = 0

abbrev pub occupied {ℓ} : {S : Type ℓ} → List (Option S) → ℕ → ℕ
occupied xs i = occupied_at (get_elem? xs i)

-- 1 if the index is an id.
abbrev pub is_id : ℕ → ℕ → ℕ
is_id capacity i = if i == 0 then 0 else if ltb capacity i then 0 else 1

pub count_sessions-set :
    {S : Type 0} (xs : List (Option S)) (i : ℕ) (o : Option S)
    → i < length xs
    → count_sessions (set xs i o) + occupied xs i ≡ count_sessions xs + occupied_at (some o)
unfolding count_sessions
count_sessions-set [] i o h = elim h [ ]
count_sessions-set (none ∷ xs) zero none h = omega arith
count_sessions-set (none ∷ xs) zero (some s) h = omega arith
count_sessions-set (some x ∷ xs) zero none h = omega arith
count_sessions-set (some x ∷ xs) zero (some s) h = omega arith
count_sessions-set (none ∷ xs) (suc i) o h = count_sessions-set xs i o (omega arith)
count_sessions-set (some x ∷ xs) (suc i) o h =
    omega (arith, count_sessions-set xs i o (omega arith))

module _ {S : Type 0} (id_of : S → ℕ) where
  pub record Inv (r : Registry S) (lost : List ℕ) : Type 0 where
    pub size : length r.sessions ≡ r.capacity + 1
    pub slots : (i : ℕ) → count i r.pool + occupied r.sessions i + count i lost ≡ is_id r.capacity i
    pub total : length r.pool + count_sessions r.sessions + length lost ≡ r.capacity
    pub waiting : r.wg ≡ count_sessions r.sessions
    pub ids : (i : ℕ) (s : S) → get_elem? r.sessions i ≡ some (some s) → id_of s ≡ i

pub occupied-set :
    {S : Type 0} (xs : List (Option S)) (i j : ℕ) (o : Option S)
    → i < length xs
    → occupied (set xs i o) j ≡ (if i == j then occupied_at (some o) else occupied xs j)
occupied-set [] i j o h = elim h [ ]
occupied-set (x ∷ xs) zero zero o h = refl
occupied-set (x ∷ xs) zero (suc j) o h = ground arith
occupied-set (x ∷ xs) (suc i) zero o h = ground arith
occupied-set (x ∷ xs) (suc i) (suc j) o h = occupied-set xs i j o (omega arith) ∙ ground arith

pub lt_of_occupied :
    {S : Type 0} (xs : List (Option S)) (i : ℕ) (s : S)
    → get_elem? xs i ≡ some (some s)
    → i < length xs
lt_of_occupied [] i s e = cc
lt_of_occupied (x ∷ xs) zero s e = omega arith
lt_of_occupied (x ∷ xs) (suc i) s e = omega (arith, lt_of_occupied xs i s e)

pub free_of_occupied :
    {S : Type 0} (xs : List (Option S)) (i : ℕ)
    → i < length xs
    → occupied xs i ≡ 0
    → get_elem? xs i ≡ some none
free_of_occupied [] i h e = elim h [ ]
free_of_occupied (none ∷ xs) zero h e = refl
free_of_occupied (some s ∷ xs) zero h e = ground arith
free_of_occupied (x ∷ xs) (suc i) h e = free_of_occupied xs i (omega arith) e

count-upwards :
    (i k n : ℕ) → count i (upwards k n) ≡ (if ltb i k then 0 else if ltb i (k + n) then 1 else 0)
unfolding upwards
count-upwards i k zero = ground arith
count-upwards i k (suc n) = ground (arith, count-upwards i (suc k) n)

length-upwards : (k n : ℕ) → length (upwards k n) ≡ n
unfolding upwards
length-upwards k zero = refl
length-upwards k (suc n) = ap suc (length-upwards (suc k) n)

pub occupied-replicate : (S : Type 0) (n i : ℕ) → occupied {S = S} (replicate n none) i ≡ 0
occupied-replicate S zero i = refl
occupied-replicate S (suc n) zero = refl
occupied-replicate S (suc n) (suc i) = occupied-replicate S n i

count_sessions-replicate : (S : Type 0) (n : ℕ) → count_sessions {S = S} (replicate n none) ≡ 0
unfolding count_sessions
count_sessions-replicate S zero = refl
count_sessions-replicate S (suc n) = count_sessions-replicate S n

get-replicate : {S : Type 0} (n i : ℕ) (s : S) → get_elem? (replicate n none) i ≡ some (some s) → ⊥
get-replicate zero i s e = cc
get-replicate (suc n) zero s e = cc
get-replicate (suc n) (suc i) s e = get-replicate n i s e

length-replicate : {S : Type 0} (n : ℕ) (x : S) → length (replicate n x) ≡ n
length-replicate zero x = refl
length-replicate (suc n) x = ap suc (length-replicate n x)

pub ids-set :
    {S : Type 0} (id_of : S → ℕ) (xs : List (Option S)) (i : ℕ) (o : Option S)
    → i < length xs
    → ((s : S) → o ≡ some s → id_of s ≡ i)
    → ((j : ℕ) (s : S) → get_elem? xs j ≡ some (some s) → id_of s ≡ j)
    → (j : ℕ) (s : S) → get_elem? (set xs i o) j ≡ some (some s)
    → id_of s ≡ j
ids-set id_of xs i o lt new old j s e = elim (dec_lt i j) [
  | yes p ↦ old j s (sym (get_elem?-set_ne xs i j o (λ q. omega arith)) ∙ e)
  | no p ↦ elim (dec_lt j i) [
    | yes q ↦ old j s (sym (get_elem?-set_ne xs i j o (λ q'. omega arith)) ∙ e)
    | no q ↦
        let same : j ≡ i = omega arith in
        let at = get_elem?-set_self xs i o lt in
        let e' = subst (λ k. get_elem? (set xs i o) k ≡ some (some s)) same e in
        new s (ground arith) ∙ sym same
  ]
]

module _ {S : Type 0} (id_of : S → ℕ) where
  new_registry-slots :
      (n : ℕ)
      → Inv id_of
          (record { sessions = replicate (suc n) none; pool = upwards 1 n; capacity = n; wg = 0 })
          []
  new_registry-slots n = record {
    size = omega (arith, length-replicate {S = Option S} n none);
    slots = λ i. ground (arith, count-upwards i 1 n, occupied-replicate S (suc n) i);
    total = omega (arith, length-upwards 1 n, count_sessions-replicate S (suc n));
    waiting = sym (count_sessions-replicate S (suc n));
    ids = λ i s e. absurd (get-replicate (suc n) i s e);
  }

  -- A new registry is well-formed, with no id lost.
  pub new_registry-Inv :
      (max_sessions : ℕ) (r : Registry S) → new_registry max_sessions ≡ some r → Inv id_of r []
  unfolding new_registry
  new_registry-Inv zero r e = cc
  new_registry-Inv (suc n) r e = subst (λ r'. Inv id_of r' []) (some_inj e) (new_registry-slots n)
