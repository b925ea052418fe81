-- ===== src/Server/ReportCache/Examples.antt =====
-- Runs of the report cache, and its theorems at concrete requests.
use fleetsweeper.Common.{◌≡◌, refl, [], ◌∷◌, String, Option, some}
use Prim.Native.String.{◌++◌ as append}
use fleetsweeper.Common.Map.{Map, lookup, insert, remove}
use fleetsweeper.Server.ReportCache.{Cache, evict, store, get}
use fleetsweeper.Server.ReportCache.Requests.{empty_cache, run}
use fleetsweeper.Server.ReportCache.Keys.{
  BuildOptions, options_key, tagged, sort_strings, insert_string, join, get_report,
  get_report-collides,
}

abbrev title : String → String
title key = append "report of " key

-- A second request for a scan leaves the cache as it is.
two_scans : (run title ("s1" ∷ "s2" ∷ "s1" ∷ []) empty_cache).order ≡ "s1" ∷ "s2" ∷ []
unfolding run store evict lookup insert remove
two_scans = refl

abbrev plain : BuildOptions
plain = record { outlier_threshold = "3.5"; groups = []; cluster_tags = [] }

key_of_two_tags :
    options_key (tagged plain (("b", "edge") ∷ ("a", "core") ∷ [])) ≡ "t=3.5;a=core,b=edge;"
unfolding options_key sort_strings insert_string join
key_of_two_tags = refl

abbrev tags_of : BuildOptions → Map String String
tags_of opts = opts.cluster_tags

-- A report that shows the tags it was built with.
abbrev built : Option (Map String String) × Cache (Map String String)
built = get_report tags_of "s1" (tagged plain (("a", "core,b=edge") ∷ [])) empty_cache

built_of_one_tag : built.0 ≡ some (("a", "core,b=edge") ∷ [])
unfolding get store evict options_key sort_strings insert_string join lookup insert
built_of_one_tag = refl

get_report-collides_example :
    get_report tags_of "s1" (tagged plain (("a", "core") ∷ ("b", "edge") ∷ [])) built.1
    ≡ (some (("a", "core,b=edge") ∷ []), built.1)
get_report-collides_example =
    get_report-collides tags_of "s1" plain "a" "core" "b" "edge" (("a", "core,b=edge") ∷ [])
      empty_cache refl built_of_one_tag
