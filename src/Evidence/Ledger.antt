-- ===== src/Evidence/Ledger.antt =====
-- The constants of the finding ledger of scripts/validate_governance_state.py, and which kind of
-- evidence a package is.
pub mod Shape
pub mod Residual
pub mod Findings
pub mod Resolution
pub mod Selected
pub mod Repairs
pub mod Settled
pub mod Reviews
pub mod Accepted
pub mod Closed
pub mod Branches
pub mod Rounds
pub mod Target
use qing_yin.Prelude.{
  Bool, List, Option, Result, String, [], contains, err, if◌then◌else◌, map, none, ok, raised,
  require, same, some, traverse, true, ℕ, ◌++◌, ◌>>=◌, ◌>>◌, ◌∷◌,
}
use qing_yin.Prelude.Int.{pos}
use qing_yin.Text.{Text, lit}
use qing_yin.Platform.{Platform}
use qing_yin.Json.{
  Fields, Value, arr, end, field, get_or_null, int, is_null, is_text, item, obj, of_elements,
}
use qing_yin.Json.Equality.{eq_value}
use qing_yin.Timestamp.{Stamp}
use qing_yin.Timestamp.Order.{no_later}
use qing_yin.Shape.{dict, list, some_or_fail}
use qing_yin.Evidence.Access.{require_equal, strptime, subscript}
use qing_yin.Evidence.Attestation.{positive}
use qing_yin.Evidence.Bundle.{Reader}
use qing_yin.Evidence.Bindings.{joined}
use qing_yin.Evidence.Responses.{response_value}

abbrev pub common_residual_ids : List Text
common_residual_ids = map lit ("GVN-P1-001" ∷ "GVN-P1-002" ∷ "GVN-P1-003" ∷ [])

abbrev pub one_time_residual_ids : List Text
one_time_residual_ids = lit "GVN-P1-005" ∷ []

abbrev pub residual_ids : List Text
residual_ids = common_residual_ids ++ one_time_residual_ids

abbrev pub one_time_target_types : List Text
one_time_target_types = map lit ("governance-bootstrap" ∷ "activation-evidence" ∷ [])

abbrev pub residual_valid_until : Text
residual_valid_until = lit "2026-11-14T00:00:00Z"

abbrev pub owner_github_id : ℕ
owner_github_id = 25630763

abbrev pub expected_governance_pr : ℕ
expected_governance_pr = 19

abbrev pub source_commit : Text
source_commit = lit "27320e74f8cb920add83d6094fb81233dbb29636"

-- `RESIDUAL_SECTION_SHA256`
abbrev pub residual_section_sha256 : List (Text × Text)
residual_section_sha256 =
    (lit "GVN-P1-001", lit "09039a5a736f1f2197dd7cd80d0d816b91eb082654f2506963d683c547064cd3")
    ∷ (lit "GVN-P1-002", lit "ceb675b0bed19ca04fc84920cd348a9ca3f466f186d844a3421d13aaeac3ec34")
    ∷ (lit "GVN-P1-003", lit "783a48b30d81c6cf5bdf97094ed306f2278e91c8f52c6a96aada14fe524b9fc2")
    ∷ (lit "GVN-P1-005", lit "d8bbc2edc58f2325258159c223f28efaeb873b8588e390424b7101fdb9c68ea8")
    ∷ []

-- `RESIDUAL_SCOPES`
abbrev pub residual_scopes : List (Text × Text)
residual_scopes =
    (
      lit "GVN-P1-001",
      joined ("本仓库 `CR0–CR3` 的普通受保护 PR 合并证据；不适用于 `CR4" ∷ "` 真实操作、生产、secret、租户、客户数据或外部门。" ∷ []),
    )
    ∷ (
      lit "GVN-P1-002",
      joined (
          "仅本仓库 `CR0–CR3` 的普通受保护同步 PR merge；不适用于 " ∷ "`CR4`、生产、secret、租户、客户数据、部署、release/tag"
          ∷ "、流量或外部门。" ∷ []),
    )
    ∷ (
      lit "GVN-P1-003",
      joined (
          "仅本仓库 `CR0–CR3` 的 Agent review transcri" ∷ "pt 证据；不适用于 `CR4`、生产、secret、租户、客户数据、部署、"
          ∷ "release/tag、流量或外部门。" ∷ []),
    )
    ∷ (
      lit "GVN-P1-005",
      joined (
          "仅 `DEC-20260829-001` 本次一次性 `CR3` gover" ∷ "nance bootstrap PR `#19` 与其唯一 activati"
          ∷ "on evidence PR 的 candidate-bound evide" ∷ "nce sequence，包括 activation binding 内嵌的"
          ∷ " PR #19 start/end/post sequence；不得用于普通" ∷ " PR（包括 CR0–CR3）、业务代码、生产、部署、发布、secret、c"
          ∷ "redential、tenant、customer data、traffic" ∷ " 或 external gate。" ∷ []),
    )
    ∷ []

abbrev pub forbidden_scope_terms : List Text
forbidden_scope_terms = map lit (
    "production" ∷ "prod" ∷ "secret" ∷ "credential" ∷ "credentials" ∷ "token" ∷ "tenant"
    ∷ "customer" ∷ "deploy" ∷ "release" ∷ "traffic" ∷ "external gate" ∷ "生产" ∷ "密钥" ∷ "凭据" ∷ "租户"
    ∷ "客户" ∷ "部署" ∷ "发布" ∷ "流量" ∷ "外部门" ∷ [])

unfoldable pub require_governance_bootstrap_base : Value → Result (Unit {0})
require_governance_bootstrap_base base_sha =
    require (is_text source_commit base_sha)
      "governance bootstrap base must equal frozen source commit"

-- `root["pr_number"] == EXPECTED_GOVERNANCE_PR`
unfoldable pub unauthorized_target : Fields → Result Text
unfolding require_governance_bootstrap_base
unauthorized_target root = do
  number_ ← item (lit "pr_number") root
  if eq_value number_ (int (pos expected_governance_pr))
      then (do
        base_sha ← item (lit "base_sha") root
        require_governance_bootstrap_base base_sha
        ok (lit "governance-bootstrap"))
      else ok (lit "ordinary")

-- `require(d.get(key) == root[root_key], message)`
abbrev pub require_as_root : Fields → Text → Fields → Text → String → Result (Unit {0})
require_as_root d key root root_key message =
    require_equal root root_key (get_or_null key d) message

unfoldable pub authorized_target : Fields → Value → Result (Unit {0})
unfolding dict require_equal
authorized_target root binding_value = do
  binding ← some_or_fail (dict binding_value) "activation binding must be an object"
  positive (get_or_null (lit "activation_evidence_pr") binding)
  require_as_root binding (lit "activation_evidence_pr") root (lit "pr_number")
      "activation binding PR differs from evidence root"
  require_as_root binding (lit "activation_candidate_head") root (lit "candidate_head")
      "activation binding head differs from evidence root"
  require_as_root binding (lit "activation_candidate_tree") root (lit "candidate_tree")
      "activation binding tree differs from evidence root"

-- `none` is no authorized target type
abbrev target_for : Fields → Value → Option Text → Result Text
target_for root binding none = do
  require (is_null binding) "non-authorized evidence must not carry an activation binding"
  unauthorized_target root
target_for root binding (some target_type) = do authorized_target root binding; ok target_type

abbrev known_target : Option Text → Bool
known_target none = true
known_target (some t) = same t (lit "activation-evidence")

unfoldable pub derive_evidence_target_type : Fields → Fields → Option Text → Result Text
unfolding unauthorized_target authorized_target
derive_evidence_target_type evidence root authorized_target_type = do
  require (known_target authorized_target_type) "authorized evidence target type invalid"
  binding ← item (lit "activation_binding") evidence
  target_for root binding authorized_target_type

unfoldable pub require_merge_ready_freshness : Text → Result (Unit {0})
require_merge_ready_freshness target_type =
    require (contains target_type one_time_target_types)
      "ordinary merge-ready evidence requires a trusted freshness receipt schema"

-- one entry of `agent_review_references`
unfoldable pub review_reference : Value → Result Value
unfolding subscript
review_reference review = do
  reviewer_id ← subscript (lit "reviewer_id") review
  report_sha256 ← subscript (lit "report_sha256") review
  ok (obj (field (lit "reviewer_id") reviewer_id (field (lit "report_sha256") report_sha256 end)))

-- the reviews of the artifact
unfoldable pub agent_reviews : Platform → Reader → Fields → Result (List Value)
unfolding dict list
agent_reviews p r review_bundle = do
  artifact_value ← response_value p r review_bundle (lit "agent-reviews")
  artifact ← some_or_fail (dict artifact_value) "agent review references missing"
  some_or_fail (list (get_or_null (lit "reviews") artifact)) "agent review references missing"

unfoldable pub agent_review_references : Platform → Reader → Fields → Result Value
unfolding agent_reviews review_reference
agent_review_references p r review_bundle = do
  reviews ← agent_reviews p r review_bundle
  references ← traverse review_reference reviews
  ok (arr (of_elements references))

unfoldable pub completed_at : Value → Result Stamp
unfolding subscript strptime
completed_at review = do v ← subscript (lit "completed_at") review; strptime v

abbrev pub later_of : Stamp → List Stamp → Stamp
later_of s [] = s
later_of s (t ∷ ts) = later_of (if no_later t s then s else t) ts

-- `max(times)`, a ValueError where there are none
abbrev pub latest_of : List Stamp → Result Stamp
latest_of [] = err (raised "ValueError")
latest_of (s ∷ ss) = ok (later_of s ss)
