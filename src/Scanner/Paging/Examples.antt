-- ===== src/Scanner/Paging/Examples.antt =====
-- Runs of a listing in pages.
use fleetsweeper.Common.{
  ℕ, ◌≡◌, true, not, ◌&&◌, [], ◌∷◌, ◌++◌, some, if◌then◌else◌, eqb, ◌==◌, string_eq, refl, arith,
}
use fleetsweeper.Scanner.Paging.{
  ListOptions, Answer, page, failed, listed, repeated_token, with_limit, list_all,
  cache_read_options, next_page,
}
use fleetsweeper.Scanner.Paging.Restart.{request_for, list_all-Serves}

-- Three pages; the third request's token has expired.
abbrev server : ℕ → ListOptions → Answer ℕ
server i o =
    if eqb i 2 && not (o.continue == "")
    then failed true
    else if o.continue == ""
    then page (1 ∷ 2 ∷ []) "a"
    else if o.continue == "a"
    then page (3 ∷ []) "b"
    else page (4 ∷ 5 ∷ []) ""

lists_all : list_all server cache_read_options 6 ≡ some (listed (1 ∷ 2 ∷ 3 ∷ 4 ∷ 5 ∷ []))
unfolding list_all
lists_all = refl

-- A server that gives a page's own token again stops the loop.
abbrev stuck_server : ℕ → ListOptions → Answer ℕ
stuck_server i o = page (7 ∷ []) "a"

stops_repeating : list_all stuck_server cache_read_options 6 ≡ some (repeated_token 2)
unfolding list_all
stops_repeating = refl

list_all-Serves_example :
    list_all server cache_read_options 6
    ≡ some (listed ((1 ∷ 2 ∷ []) ++ (3 ∷ []) ++ (4 ∷ 5 ∷ []) ++ []))
unfolding request_for with_limit next_page
list_all-Serves_example =
    list_all-Serves server cache_read_options 2 (1 ∷ 2 ∷ [])
      (("a", 3 ∷ []) ∷ ("b", 4 ∷ 5 ∷ []) ∷ []) 6 refl (λ o h. ground (arith, h))
      (
        refl,
        refl,
        λ i h. ground (arith, h),
        (refl, refl, λ i h. ground (arith, h), λ i h. ground (arith, h)),
      )
      (omega arith)
