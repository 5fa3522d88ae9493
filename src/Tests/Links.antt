-- ===== src/Tests/Links.antt =====
-- A repository of two documents for scripts/validate_markdown_links.py, with the theorems on it.
use qing_yin.Text.{Text, lit}
use qing_yin.Prelude.{All, [], map, ok, refl, traverse, true, ◌↔◌, ◌∷◌, ◌≡◌}
use qing_yin.Links.{Repository, check_links, link_targets, markdown_files, match_link}
use qing_yin.Links.Matches.{Finds, link_targets_iff}
use qing_yin.Links.Accepted.{IsLinked, check_links_iff}

abbrev sample_text : Text
sample_text = lit "See [here](#top), [there](b.md) and [outside](https://example.org)."

abbrev sample : Repository
sample = record {
  is_file = λ p. true;
  read = λ p. ok sample_text;
  resolve = λ source p. p;
  documents = lit "docs/a.md" ∷ [];
}

found_links : link_targets sample_text ≡ map lit ("#top" ∷ "b.md" ∷ "https://example.org" ∷ [])
unfolding link_targets lit match_link
found_links = refl

accepted : check_links sample ≡ ok 0
unfolding check_links traverse lit match_link
accepted = refl

link_targets_iff_example :
    (link_targets sample_text ≡ map lit ("#top" ∷ "b.md" ∷ "https://example.org" ∷ []))
    ↔ Finds sample_text (map lit ("#top" ∷ "b.md" ∷ "https://example.org" ∷ []))
link_targets_iff_example =
    link_targets_iff sample_text (map lit ("#top" ∷ "b.md" ∷ "https://example.org" ∷ []))

check_links_iff_example :
    (check_links sample ≡ ok 0) ↔ All (IsLinked sample) (markdown_files sample)
check_links_iff_example = check_links_iff sample
