-- ===== src/Requests/Finalize/Root.antt =====
-- The root request that requests/requests.go settles on, and the redirect parents.
use veidemann_browser_contro.Prelude.{
  ℕ, zero, suc, ◌≡◌, refl, sym, Bool, String, Option, none, some, List, [], ◌∷◌, ◌++◌, str_eq,
  lookup, insert, lookup-insert, str_eq_refl, length, if◌then◌else◌, arith, eq_iff, ◌∙◌, ap, map,
}
use mathlib.Core.List.{append-nil, append_assoc, map-append}
use veidemann_browser_contro.Config.{QueuedUri}
use veidemann_browser_contro.Requests.{Request, RequestRegistry}
use veidemann_browser_contro.Requests.Finalize.{
  Finalizing, with_parent, with_log, finalize_one, finalize_all, finalize_responses, start,
}

-- The index of the last request with a network id.
later_index : Option ℕ → Bool → Option ℕ
later_index (some k) here = some (suc k)
later_index none here = if here then some 0 else none

unfoldable pub last_index : String → List Request → Option ℕ
unfolding later_index
last_index id [] = none
last_index id (x ∷ xs) = later_index (last_index id xs) (str_eq x.network_id id)

last_index-append :
    (id : String) (xs : List Request) (x : Request)
    → last_index id (xs ++ x ∷ [])
      ≡ (if str_eq x.network_id id then some (length xs) else last_index id xs)
unfolding last_index
last_index-append id [] x = ground arith
last_index-append id (y ∷ xs) x = ground (arith, last_index-append id xs x)

pub network_id-with_log :
    (requested : QueuedUri) (before : List Request) (urls : List (String × ℕ)) (p : Option ℕ)
    (rr : Request)
    → (with_log requested before urls (with_parent p rr)).network_id ≡ rr.network_id
unfolding with_log with_parent
network_id-with_log requested before urls none rr = ground arith
network_id-with_log requested before urls (some p) rr = ground arith

last_index_inj :
    (a b : String) (xs : List Request) (k : ℕ)
    → last_index a xs ≡ some k
    → last_index b xs ≡ some k
    → a ≡ b
unfolding last_index
last_index_inj a b [] k p q = cc
last_index_inj a b (x ∷ xs) zero p q = ground (arith, eq_iff x.network_id a, eq_iff x.network_id b)
last_index_inj a b (x ∷ xs) (suc k) p q = last_index_inj a b xs k (ground arith) (ground arith)

-- Between two turns: the map of ids holds the last index of each id, the root is the last index of
-- the first id.
pub record Inv (first : String) (s : Finalizing) : Type 0 where
  pub last_ids : (id : String) → lookup id s.ids ≡ last_index id s.before
  pub last_root : last_index first s.before ≡ some s.root

pub ids_step :
    (requested : QueuedUri) (s : Finalizing) (rr : Request)
    → ((id : String) → lookup id s.ids ≡ last_index id s.before)
    → (id : String)
    → lookup id (finalize_one requested s rr).ids
      ≡ last_index id (finalize_one requested s rr).before
unfolding finalize_one
ids_step requested s rr h id = ground (
  arith,
  h id,
  lookup-insert rr.network_id id (length s.before) s.ids,
  last_index-append id s.before (
      with_log requested s.before (insert rr.url (length s.before) s.urls)
        (with_parent (lookup rr.network_id s.ids) rr)),
  network_id-with_log requested s.before (insert rr.url (length s.before) s.urls)
      (lookup rr.network_id s.ids) rr,
)

finalize_one-Inv :
    (requested : QueuedUri) (first : String) (s : Finalizing) (rr : Request)
    → Inv first s
    → Inv first (finalize_one requested s rr)
unfolding finalize_one
finalize_one-Inv requested first s rr v = record {
  last_ids = ids_step requested s rr v.last_ids;
  last_root = ground (
    arith,
    v.last_root,
    v.last_ids rr.network_id,
    eq_iff rr.network_id first,
    last_index_inj rr.network_id first s.before s.root,
    last_index-append first s.before (
        with_log requested s.before (insert rr.url (length s.before) s.urls)
          (with_parent (lookup rr.network_id s.ids) rr)),
    network_id-with_log requested s.before (insert rr.url (length s.before) s.urls)
        (lookup rr.network_id s.ids) rr,
  );
}

pub finalize_all-Inv :
    (requested : QueuedUri) (first : String) (s : Finalizing) (rest : List Request)
    → Inv first s
    → Inv first (finalize_all requested s rest)
unfolding finalize_all
finalize_all-Inv requested first s [] v = v
finalize_all-Inv requested first s (rr ∷ rest) v =
    finalize_all-Inv requested first (finalize_one requested s rr) rest
      (finalize_one-Inv requested first s rr v)

abbrev pub network_ids : List Request → List String
network_ids = map λ r. r.network_id

pub last_index-cong :
    (id : String) (xs ys : List Request)
    → network_ids xs ≡ network_ids ys
    → last_index id xs ≡ last_index id ys
unfolding last_index
last_index-cong id [] [] e = refl
last_index-cong id [] (y ∷ ys) e = cc
last_index-cong id (x ∷ xs) [] e = cc
last_index-cong id (x ∷ xs) (y ∷ ys) e = ground (arith, last_index-cong id xs ys)

pub network_ids-finalize_all :
    (requested : QueuedUri) (s : Finalizing) (rest : List Request)
    → network_ids (finalize_all requested s rest).before ≡ network_ids (s.before ++ rest)
unfolding finalize_all finalize_one
network_ids-finalize_all requested s [] = ap network_ids (sym (append-nil s.before))
network_ids-finalize_all requested s (rr ∷ rest) =
    network_ids-finalize_all requested (finalize_one requested s rr) rest
    ∙ simp (map-append, append_assoc, network_id-with_log)

pub first-Inv :
    (requested : QueuedUri) (rr : Request) → Inv rr.network_id (finalize_one requested start rr)
unfolding finalize_one
first-Inv requested rr = record {
  last_ids = ids_step requested start rr (λ id. unfold lookup last_index in refl);
  last_root =
      rw (last_index-append rr.network_id [] _, network_id-with_log requested [] _ _ rr)
        (rw (str_eq_refl rr.network_id) (ground arith));
}

-- FinalizeResponses of a registry with a first request makes the root request the last request that
-- has the network id of the first one, and leaves the network ids of all requests as they are.
pub root-finalize_responses :
    (r : RequestRegistry) (requested : QueuedUri) (rr : Request) (rest : List Request)
    → r.requests ≡ rr ∷ rest
    → (r' : RequestRegistry) × (finalize_responses r requested ≡ some r')
      × (r'.root ≡ last_index rr.network_id r.requests)
      × (network_ids r'.requests ≡ network_ids r.requests)
unfolding finalize_responses finalize_all
root-finalize_responses r requested rr rest e =
    let s = finalize_all requested start (rr ∷ rest) in
    let v =
      finalize_all-Inv requested rr.network_id (finalize_one requested start rr) rest
        (first-Inv requested rr) in
    let same = network_ids-finalize_all requested start (rr ∷ rest) in
    rw e (
      record r { requests = s.before; root = some s.root },
      refl,
      sym v.last_root ∙ last_index-cong rr.network_id s.before (rr ∷ rest) same,
      same,
    )
