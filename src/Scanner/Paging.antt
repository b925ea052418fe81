-- ===== src/Scanner/Paging.antt =====
-- Listing in pages: internal/scanner/paging.go.
-- The apiserver is the section's parameter `list`: its answer to the i-th request. Whatever it answers the loop
-- may go on, so it runs on fuel; Scanner/Paging/Restart bounds the fuel for a server that pages a finite list.
pub mod Restart
pub mod Examples
use fleetsweeper.Common.{
  ℕ, zero, suc, Bool, true, false, not, ◌&&◌, List, [], ◌++◌, Option, none, some, String,
  if◌then◌else◌, eqb, ◌==◌, string_eq, length,
}

pub record ListOptions : Type 0 where
  pub limit : ℕ
  pub continue : String
  pub resource_version : String
  pub resource_version_match : String
  -- the field and the label selectors
  pub selectors : String

abbrev pub default_list_limit : ℕ
default_list_limit = 500

abbrev pub cache_read_options : ListOptions
cache_read_options = record {
  limit = 0;
  continue = "";
  resource_version = "0";
  resource_version_match = "NotOlderThan";
  selectors = "";
}

-- A page with the token of the next, or an error that says whether the resource expired.
pub data Answer (T : Type 0) : Type 0 where
  page : List T → String → Answer T
  failed : Bool → Answer T

pub data Listing (T : Type 0) : Type 0 where
  listed : List T → Listing T
  list_error : Listing T
  repeated_token : ℕ → Listing T

unfoldable pub with_limit : ListOptions → ListOptions
with_limit o = if eqb o.limit 0 then record o { limit = default_list_limit } else o

unfoldable pub next_page : ListOptions → String → ListOptions
next_page o token = record o {
  continue = token;
  resource_version = "";
  resource_version_match = "";
}

module _ {T : Type 0} (list : ℕ → ListOptions → Answer T) (opts : ListOptions) where
  -- The loop, at its i-th request. None is a loop that goes on when the fuel is used up.
  unfoldable pub list_loop : ℕ → ℕ → ListOptions → Bool → List T → Option (Listing T)
  unfolding next_page
  list_loop zero i request restarted out = none
  list_loop (suc fuel) i request restarted out = elim (list i request) [
    | failed expired ↦
        let again = list_loop fuel (suc i) opts true [] in
        if not (request.continue == "") && not restarted && expired then again else some list_error
    | page items token ↦
        let onward = list_loop fuel (suc i) (next_page opts token) restarted (out ++ items) in
        if token == ""
        then some (listed (out ++ items))
        else if token == request.continue
        then some (repeated_token (length (out ++ items)))
        else onward
  ]

unfoldable pub list_all :
    {T : Type 0} → (ℕ → ListOptions → Answer T) → ListOptions → ℕ → Option (Listing T)
unfolding list_loop with_limit
list_all list o fuel = list_loop list (with_limit o) fuel 0 (with_limit o) false []
