-- ===== src/Bucky/Listing/Tests.antt =====
-- A run of a list of one name, asked for by bucky and answered by a daemon.
use buckytools.Prelude.{◌≡◌, refl, true, false, some, List, [], ◌∷◌}
use buckytools.Prelude.Text.{Text, codes, text_lt}
use buckytools.Prelude.Strings.{has_prefix}
use buckytools.Metrics.Cache.{MetricsCache, Met, new_metrics_cache, refresh_cache}
use buckytools.Buckyd.Inventory.{Inventory}
use buckytools.Bucky.Listing.{list_command, by_name, sort_lists, all_metrics}
use buckytools.Bucky.Inconsistent.{sort_strings, insert_sorted}

abbrev inventory : Inventory
inventory = record {
  now = 8;
  timeout = 60;
  compile = λ e. some (λ m. has_prefix m e);
  parse_list = λ t. some (t ∷ []);
}

abbrev files : List Met
files =
    (codes "/w/a/b.wsp", some (record { name = codes "b.wsp"; is_dir = false; is_regular = true }))
    ∷ ((codes "/w/c.wsp", some (record { name = codes "c.wsp"; is_dir = false; is_regular = true }))
        ∷ [])

abbrev cache : MetricsCache
cache = refresh_cache (codes "/w") files 7 new_metrics_cache

-- The text of a list of one name is that name.
abbrev first : List Text → Text
first [] = []
first (m ∷ ms) = m

abbrev wanted : List Text
wanted = codes "c" ∷ []

-- The lists of two servers are merged; with JSON an error of a server does not count.
merged :
    list_command false true ((codes "h", codes "b" ∷ []) ∷ ((codes "i", codes "a" ∷ []) ∷ []), true)
    ≡ (by_name (codes "a" ∷ (codes "b" ∷ [])), 0)
unfolding list_command all_metrics sort_lists sort_strings insert_sorted text_lt
merged = refl
