-- ===== src/Requests/Lookup.antt =====
-- What the getters of requests/requests.go find.
use veidemann_browser_contro.Prelude.{
  inl, inr, ℕ, zero, suc, ◌+◌, ◌<◌, ◌≡◌, refl, ◌↔◌, Bool, true, false, Bool-cases, String, Option,
  none, some, List, [], ◌∷◌, All, get_elem?, arith, eq_iff, ◌≢◌,
}
use veidemann_browser_contro.Requests.{
  Request, RequestRegistry, find_from, get_by_url, get_by_request_id, count_unresolved,
  match_crawl_logs,
}

-- The request at an index has a property.
abbrev pub HasAt : (Request → Type 0) → List Request → ℕ → Type 0
HasAt P xs i = (r : Request) × (get_elem? xs i ≡ some r) × P r

-- The first request with a property, or that none has it.
pub data IsFirst (P : Request → Type 0) (xs : List Request) : Option ℕ → Type 0 where
  first : (i : ℕ) → HasAt P xs i → ((j : ℕ) → j < i → ¬ HasAt P xs j) → IsFirst P xs (some i)
  absent : ((j : ℕ) → ¬ HasAt P xs j) → IsFirst P xs none

module _ (P : Request → Type 0) (p : Request → Bool)
    (decides : (r : Request) → (p r ≡ true) ↔ P r) where
  not-HasAt_head :
      (x : Request) (xs : List Request) (j : ℕ)
      → p x ≡ false
      → ((k : ℕ) → j ≡ suc k → ¬ HasAt P xs k)
      → ¬ HasAt P (x ∷ xs) j
  not-HasAt_head x xs zero e h (r, at, q) =
      let t = (decides r).1 q in let same : x ≡ r = ground arith in ground arith
  not-HasAt_head x xs (suc j) e h (r, at, q) = h j refl (r, at, q)

  find_from_absent :
      (i : ℕ) (xs : List Request) → find_from p i xs ≡ none → (j : ℕ) → ¬ HasAt P xs j
  unfolding find_from
  find_from_absent i [] e j (r, at, q) = cc
  find_from_absent i (x ∷ xs) e j h = elim (Bool-cases (p x)) [
    | inl t ↦ ground arith
    | inr t ↦ not-HasAt_head x xs j t (λ k _. find_from_absent (i + 1) xs (ground arith) k) h
  ]

  find_from_found :
      (i : ℕ) (xs : List Request) (k : ℕ)
      → find_from p i xs ≡ some k
      → (d : ℕ) × (k ≡ i + d) × HasAt P xs d × ((j : ℕ) → j < d → ¬ HasAt P xs j)
  unfolding find_from
  find_from_found i [] k e = cc
  find_from_found i (x ∷ xs) k e = elim (Bool-cases (p x)) [
    | inl t ↦ (0, ground arith, (x, refl, (decides x).0 t), λ j l. absurd (omega arith))
    | inr t ↦
        let (d, s, here, before) = find_from_found (i + 1) xs k (ground arith) in
        (suc d, omega arith, here, λ j l. not-HasAt_head x xs j t (λ m q. before m (omega arith)))
  ]

  find_from-IsFirst : (xs : List Request) → IsFirst P xs (find_from p 0 xs)
  find_from-IsFirst xs = go (find_from p 0 xs) refl
    where
      go : (o : Option ℕ) → find_from p 0 xs ≡ o → IsFirst P xs (find_from p 0 xs)
      go none e = rw e (absent (find_from_absent 0 xs e))
      go (some k) e =
          let (d, s, here, before) = find_from_found 0 xs k e in
          let same : k ≡ d = omega arith in rw (e, same) (first d here before)

-- GetByUrl returns the first request with the URL that, if only new ones are asked for, the proxy has
-- not announced yet; and nil exactly if there is none.
pub get_by_url-IsFirst :
    (r : RequestRegistry) (url : String) (only_new : Bool)
    → IsFirst
        (λ req. (req.url ≡ url) × (only_new ≡ true → req.got_new ≡ false))
        r.requests
        (get_by_url r url only_new)
unfolding get_by_url
get_by_url-IsFirst r url only_new =
    find_from-IsFirst _ _ (λ req. ground (arith, eq_iff req.url url)) r.requests

-- GetByRequestId returns the first request with the id, and nil exactly if there is none.
pub get_by_request_id-IsFirst :
    (r : RequestRegistry) (id : String)
    → IsFirst (λ req. req.request_id ≡ id) r.requests (get_by_request_id r id)
unfolding get_by_request_id
get_by_request_id-IsFirst r id = find_from-IsFirst _ _ (λ req. eq_iff req.request_id id) r.requests

resolved_of_zero :
    (xs : List Request) → count_unresolved xs ≡ 0 → All (λ req. req.crawl_log ≢ none) xs
unfolding count_unresolved
resolved_of_zero [] e = tt
resolved_of_zero (x ∷ xs) e = (ground arith, resolved_of_zero xs (ground arith))

zero_of_resolved :
    (xs : List Request) → All (λ req. req.crawl_log ≢ none) xs → count_unresolved xs ≡ 0
unfolding count_unresolved
zero_of_resolved [] h = refl
zero_of_resolved (x ∷ xs) h = ground (arith, zero_of_resolved xs h.1, h.0)

-- MatchCrawlLogs is true exactly when every request of the registry has its crawl log.
pub match_crawl_logs_iff :
    (r : RequestRegistry)
    → (match_crawl_logs r ≡ true) ↔ All (λ req. req.crawl_log ≢ none) r.requests
unfolding match_crawl_logs
match_crawl_logs_iff r = (
  λ e. resolved_of_zero r.requests (ground arith),
  λ h. let z = zero_of_resolved r.requests h in ground arith,
)
