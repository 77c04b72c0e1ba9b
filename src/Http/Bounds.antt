-- ===== src/Http/Bounds.antt =====
-- backend-service/internal/http/handlers.go and module_handlers.go: what a list of jobs says of
-- itself.
use electric_power_digital_d.Common.{
  ℕ, zero, suc, ◌+◌, ◌*◌, ◌≤◌, ◌<◌, ◌≡◌, refl, String, List, [], ◌∷◌, map, take, length,
  length-select-le, ok, Result-cases, inl, inr, arith, Bool-cases, ltb, drop, subst,
}
use electric_power_digital_d.Common.Int.{ℤ, pos, negsuc, pos_part}
use electric_power_digital_d.Models.{Job}
use electric_power_digital_d.Storage.Mysql.Table.{Row, MysqlStore}
use electric_power_digital_d.Storage.Mysql.Pages.{filtered}
use electric_power_digital_d.Storage.Mysql.Reads.{to_job}
use electric_power_digital_d.Storage.Mysql.Listing.{
  list_jobs_with_pagination, limit_offset, page_offset,
}
use electric_power_digital_d.Http.Query.{Params, clamp_page, clamp_page_size, default_query, atoi}
use electric_power_digital_d.Http.Server.{Server, reply, jobs_page, module_jobs}
use electric_power_digital_d.Http.Jobs.{page_of, page_size_of, pages_of, list_jobs}
use electric_power_digital_d.Http.Modules.{list_module_jobs, in_module}

clamp_page-pos : (a : ℤ) → (n : ℕ) × (clamp_page a ≡ pos (suc n))
unfolding clamp_page
clamp_page-pos (pos zero) = (0, refl)
clamp_page-pos (pos (suc n)) = (n, ground arith)
clamp_page-pos (negsuc n) = (0, ground arith)

clamp_page_size-bounds : (a : ℤ) → (n : ℕ) × (clamp_page_size a ≡ pos (suc n)) × (n < 100)
unfolding clamp_page_size
clamp_page_size-bounds (pos zero) = (19, refl, omega arith)
clamp_page_size-bounds (pos (suc n)) = elim (Bool-cases (ltb 100 (suc n))) [
  | inl large ↦ (19, ground arith, omega arith)
  | inr small ↦ (n, ground arith, ground arith)
]
clamp_page_size-bounds (negsuc n) = (19, ground arith, omega arith)

length-map_jobs : (rows : List Row) → length (map to_job rows) ≡ length rows
length-map_jobs [] = refl
length-map_jobs (r ∷ rows) = omega (arith, length-map_jobs rows)

length-take : (n : ℕ) (rows : List Row) → length (take n rows) ≤ n
length-take zero rows = omega arith
length-take (suc n) [] = omega arith
length-take (suc n) (r ∷ rows) = omega (arith, length-take n rows)

limit-length :
    (n : ℕ) (offset : ℤ) (rows page : List Row)
    → limit_offset (pos n) offset rows ≡ ok page
    → length page ≤ n
limit-length n (pos o) rows page e = ground (arith, length-take n (drop o rows))
limit-length n (negsuc o) rows page e = ground arith

page-length :
    (user_id status : String) (page : ℤ) (n : ℕ) (s : MysqlStore) (l : List Job) (total : ℕ)
    → (list_jobs_with_pagination user_id status page (pos n) s).0 ≡ ok (l, total)
    → length l ≤ n
unfolding list_jobs_with_pagination
page-length user_id status page n s l total e =
    elim (Result-cases
      (limit_offset (pos n) (page_offset page (pos n)) (filtered user_id status s))) [
        | inl (rows, fetched) ↦ ground (
          arith,
          limit-length n (page_offset page (pos n)) (filtered user_id status s) rows fetched,
          length-map_jobs rows,
        )
        | inr (failure, failed) ↦ absurd (ground arith)
      ]

-- The same, at a page size that is known to be positive.
size-length :
    (user_id status : String) (page size : ℤ) (n : ℕ) (s : MysqlStore) (l : List Job) (total : ℕ)
    → size ≡ pos n
    → (list_jobs_with_pagination user_id status page size s).0 ≡ ok (l, total)
    → length l ≤ n
size-length user_id status page size n s l total e found =
    page-length user_id status page n s l total
      (subst (λ a. (list_jobs_with_pagination user_id status page a s).0 ≡ ok (l, total)) e found)

pages-total :
    (total n : ℕ)
    → (total ≤ pages_of total (pos (suc n)) * suc n)
      × (pages_of total (pos (suc n)) * suc n < total + suc n)
pages-total total n = (grind arith, grind arith)

module _ {P : Type 0} where
  -- A list of jobs says a page number and a page size that are in range, holds at most that many
  -- jobs, and says how many pages all jobs fill.
  pub list_jobs-bounds :
      (q : Params) (s : Server P) (l : List Job) (total pages : ℕ) (page page_size : ℤ)
      → (list_jobs q s).0 ≡ reply 200 (jobs_page l total page page_size pages)
      → (p n : ℕ) × (page ≡ pos (suc p))
        × (page_size ≡ pos (suc n))
        × (n < 100)
        × (length l ≤ suc n)
        × (total ≤ pages * suc n)
        × (pages * suc n < total + suc n)
  unfolding list_jobs
  list_jobs-bounds q s l total pages page page_size e =
      let listing =
        (list_jobs_with_pagination (default_query "user_id" "" q) (default_query "status" "" q)
          (page_of q) (page_size_of q) s.jobs.store).0 in
      let (p, first) = clamp_page-pos (atoi (default_query "page" "1" q)) in
      let (n, size, few) = clamp_page_size-bounds (atoi (default_query "page_size" "20" q)) in
      elim (Result-cases listing) [
        | inl ((all, n_all), found) ↦
            let short =
              size-length (default_query "user_id" "" q) (default_query "status" "" q) (page_of q)
                (page_size_of q) (suc n) s.jobs.store all n_all size found in
            (
              p,
              n,
              ground arith,
              ground arith,
              few,
              ground arith,
              ground (arith, pages-total total n),
              ground (arith, pages-total total n),
            )
        | inr (failure, failed) ↦ absurd (ground arith)
      ]

  -- The list of the jobs of a module says as its total how many jobs it holds, and that is never
  -- more than a page, however many jobs of the module there are.
  list_module_jobs-total :
      (mod_name : String) (q : Params) (s : Server P) (l : List Job) (total : ℕ)
      (page page_size : ℤ)
      → (list_module_jobs mod_name q s).0 ≡ reply 200 (module_jobs l total page page_size mod_name)
      → (total ≡ length l) × (total ≤ pos_part page_size) × (pos_part page_size ≤ 100)
  unfolding list_module_jobs
  list_module_jobs-total mod_name q s l total page page_size e =
      let listing =
        (list_jobs_with_pagination (default_query "user_id" "" q) (default_query "status" "" q)
          (page_of q) (page_size_of q) s.jobs.store).0 in
      let (n, size, few) = clamp_page_size-bounds (atoi (default_query "page_size" "20" q)) in
      elim (Result-cases listing) [
        | inl ((all, n_all), found) ↦
            let short =
              size-length (default_query "user_id" "" q) (default_query "status" "" q) (page_of q)
                (page_size_of q) (suc n) s.jobs.store all n_all size found in
            ground (arith, length-select-le (λ (j : Job). in_module mod_name j.scheme_code) all)
        | inr (failure, failed) ↦ absurd (ground arith)
      ]
