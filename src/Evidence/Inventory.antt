-- ===== src/Evidence/Inventory.antt =====
-- The constants of scripts/validate_governance_state.py that name components, labels and paths.
use qing_yin.Prelude.{
  Bool, List, Option, String, [], all, between, drop, false, if◌then◌else◌, length, map, none, same,
  some, take, true, ◌&&◌, ◌++◌, ◌==◌, ◌∷◌,
}
use qing_yin.Text.{Text, lit}
use qing_yin.Numeral.{is_digit}
use qing_yin.Shape.{is_hex}

unfoldable pub pre_attestation_components : List Text
pre_attestation_components = map lit (
    "pr" ∷ "paths" ∷ "metadata" ∷ "review" ∷ "discussion" ∷ "checks" ∷ "control" ∷ "identity"
    ∷ "security" ∷ "runner" ∷ "finding" ∷ [])

unfoldable pub stable_components : List Text
unfolding pre_attestation_components
stable_components = pre_attestation_components ++ lit "attestation" ∷ []

unfoldable pub post_merge_components : List Text
unfolding stable_components
post_merge_components = stable_components ++ lit "merge" ∷ []

-- `COMPONENT_INVENTORY`: the labels of each component, in order
unfoldable pub component_inventory : List (Text × List Text)
component_inventory =
    map (λ ((name, labels) : String × List String). (lit name, map lit labels))
      (("pr", "pull" ∷ [])
        ∷ ("paths", "candidate-commit" ∷ "candidate-tree" ∷ "pull-files" ∷ [])
        ∷ ("metadata", "pull-metadata" ∷ [])
        ∷ ("review", "agent-reviews" ∷ "github-reviews" ∷ [])
        ∷ ("discussion", "issue-comments" ∷ "review-threads" ∷ [])
        ∷ ("checks", "check-runs" ∷ "workflow-jobs" ∷ "workflow-logs" ∷ "workflow-runs" ∷ [])
        ∷ (
          "control",
          "action-pins" ∷ "branch-protection" ∷ "repository-settings" ∷ "rulesets"
              ∷ "validator-source" ∷ "workflow-blobs" ∷ [],
        )
        ∷ ("identity", "collaborators" ∷ "owner-identity" ∷ [])
        ∷ ("security", "security-settings" ∷ [])
        ∷ ("runner", "execution-objects" ∷ "runner-provenance" ∷ "toolchain-lockfiles" ∷ [])
        ∷ ("finding", "finding-ledger" ∷ [])
        ∷ ("attestation", "attestation-comment" ∷ "attestation-payload" ∷ [])
        ∷ (
          "merge",
          "main-ref" ∷ "merge-commit" ∷ "merge-response" ∷ "merged-pull" ∷ "post-merge-checks"
              ∷ "post-merge-metadata" ∷ [],
        )
        ∷ [])

-- The path patterns use three pieces: literal text, `[1-9][0-9]*` and `[0-9a-f]{40}`.
pub data Piece : Type 0 where
  literal : Text → Piece
  number : Piece
  sha : Piece

-- the text behind a prefix
unfoldable pub after_prefix : Text → Text → Option Text
after_prefix [] s = some s
after_prefix (c ∷ cs) [] = none
after_prefix (c ∷ cs) (d ∷ s) = let rest = after_prefix cs s in if c == d then rest else none

skip_digits : Text → Text
skip_digits [] = []
skip_digits (c ∷ s) = let rest = skip_digits s in if is_digit c then rest else c ∷ s

-- the text behind a number, which takes every digit: no piece that follows one begins with a digit
unfoldable pub after_number : Text → Option Text
unfolding skip_digits
after_number [] = none
after_number (c ∷ s) = if between b'1' b'9' c then some (skip_digits s) else none

unfoldable pub after_sha : Text → Option Text
after_sha s =
    if all is_hex (take 40 s) && (length (take 40 s) == 40) then some (drop 40 s) else none

abbrev after_piece : Piece → Text → Option Text
after_piece (literal t) s = after_prefix t s
after_piece number s = after_number s
after_piece sha s = after_sha s

-- `re.fullmatch(pattern, text) is not None`
unfoldable pub fullmatch : List Piece → Text → Bool
unfolding after_prefix after_number after_sha
fullmatch [] [] = true
fullmatch [] (_ ∷ _) = false
fullmatch (p ∷ ps) s = elim (after_piece p s) [ none ↦ false | some rest ↦ fullmatch ps rest ]

pub record Rule : Type 0 where
  pub source : Text
  pub method : Text
  pub path : List Piece

abbrev rule : String → String → List Piece → Rule
rule source method path = record { source = lit source; method = lit method; path = path }

-- a path below the repository's own on the GitHub API
abbrev repo : String → Piece
repo rest = literal (lit "/repos/ZhangIvan/QingYin" ++ lit rest)

abbrev at : String → Piece
at path = literal (lit path)

-- `LABEL_REQUEST_RULES`
unfoldable pub label_request_rules : List (Text × Rule)
label_request_rules =
    map (λ ((label, r) : String × Rule). (lit label, r))
      (("pull", rule "github-api" "GET" (repo "/pulls/" ∷ number ∷ []))
        ∷ ("pull-files", rule "github-api" "GET" (repo "/pulls/" ∷ number ∷ at "/files" ∷ []))
        ∷ ("candidate-commit", rule "git" "READ" (at "/git/commits/" ∷ sha ∷ []))
        ∷ ("candidate-tree", rule "github-api" "GET" (repo "/git/trees/" ∷ sha ∷ []))
        ∷ ("pull-metadata", rule "github-api" "POST" (at "/graphql" ∷ []))
        ∷ ("agent-reviews", rule "agent" "READ" (at "/reviews/" ∷ sha ∷ []))
        ∷ ("github-reviews", rule "github-api" "GET" (repo "/pulls/" ∷ number ∷ at "/reviews" ∷ []))
        ∷ (
          "issue-comments",
          rule "github-api" "GET" (repo "/issues/" ∷ number ∷ at "/comments" ∷ []),
        )
        ∷ ("review-threads", rule "github-api" "POST" (at "/graphql" ∷ []))
        ∷ ("check-runs", rule "github-api" "GET" (repo "/commits/" ∷ sha ∷ at "/check-runs" ∷ []))
        ∷ ("workflow-jobs", rule "derived" "DERIVE" (at "/workflow-jobs" ∷ []))
        ∷ ("workflow-logs", rule "derived" "DERIVE" (at "/workflow-logs" ∷ []))
        ∷ ("workflow-runs", rule "github-api" "GET" (repo "/actions/runs" ∷ []))
        ∷ ("action-pins", rule "git" "READ" (at "/git/action-pins" ∷ []))
        ∷ ("branch-protection", rule "github-api" "GET" (repo "/branches/main/protection" ∷ []))
        ∷ ("repository-settings", rule "github-api" "GET" (repo "" ∷ []))
        ∷ ("rulesets", rule "github-api" "GET" (repo "/rulesets" ∷ []))
        ∷ ("validator-source", rule "git" "READ" (at "/git/validator-source" ∷ []))
        ∷ ("workflow-blobs", rule "git" "READ" (at "/git/workflows" ∷ []))
        ∷ ("collaborators", rule "github-api" "GET" (repo "/collaborators" ∷ []))
        ∷ ("owner-identity", rule "github-api" "GET" (at "/users/ZhangIvan" ∷ []))
        ∷ ("security-settings", rule "github-api" "GET" (repo "" ∷ []))
        ∷ ("runner-provenance", rule "derived" "DERIVE" (at "/runner/provenance" ∷ []))
        ∷ ("execution-objects", rule "git" "READ" (at "/git/execution-objects" ∷ []))
        ∷ ("toolchain-lockfiles", rule "git" "READ" (at "/git/toolchain-lockfiles" ∷ []))
        ∷ ("finding-ledger", rule "derived" "DERIVE" (at "/finding-ledger" ∷ []))
        ∷ ("attestation-comment", rule "github-api" "GET" (repo "/issues/comments/" ∷ number ∷ []))
        ∷ ("attestation-payload", rule "derived" "DERIVE" (at "/attestation-payload" ∷ []))
        ∷ ("main-ref", rule "github-api" "GET" (repo "/git/ref/heads/main" ∷ []))
        ∷ ("merge-commit", rule "git" "READ" (at "/git/merge-commit" ∷ []))
        ∷ ("merge-response", rule "github-api" "PUT" (repo "/pulls/" ∷ number ∷ at "/merge" ∷ []))
        ∷ ("merged-pull", rule "github-api" "GET" (repo "/pulls/" ∷ number ∷ []))
        ∷ (
          "post-merge-checks",
          rule "github-api" "GET" (repo "/commits/" ∷ sha ∷ at "/check-runs" ∷ []),
        )
        ∷ ("post-merge-metadata", rule "github-api" "POST" (at "/graphql" ∷ []))
        ∷ [])

module _ {ℓ} {A : Type ℓ} where
  -- `table.get(key)`
  unfoldable pub lookup : Text → List (Text × A) → Option A
  lookup k [] = none
  lookup k ((j, a) ∷ table) = if same j k then some a else lookup k table
