-- ===== src/Lib.antt =====
-- The validators of QingYin: scripts/validate_governance_state.py and smaller ones beside it.
--
-- The governance script decides whether a change of the repository's governance state is backed by its
-- evidence. It reads JSON documents that a collector recorded (requests, endpoint bundles,
-- attestations, manifests), checks the form of each, and compares what they say with one another.
-- A document that fails a check raises GovernanceValidationError, and `main` fails closed.
--
-- Which file models which part:
--   Prelude      errors as `Result`, list tests, orders, Python's sort, and their lemmas. `invalid` is
--                a GovernanceValidationError with the fixed text of its message (the interpolated
--                values and the `label` arguments, which only words of messages use, are left out);
--                `raised` is any other exception, by its class.
--   Text         strings as lists of code points, lone surrogates among them, and their encodings;
--                Text.Utf8 is the decoder. Like Numeral and Regex, it stands for what Python's library
--                does; Json.Strict.Encoded says what `validate_utf8_bytes` takes.
--   Platform     what comes from Python's C libraries, as a parameter: NFC, SHA-256 and SHA-1.
--   Numeral      `str(n)`, `int(text)` and the pattern `[1-9][0-9]*`. The printing loop runs on fuel
--                one above the number, and each round divides by ten, so the fuel is enough
--                (Numeral.RoundTrip). Numeral.Float says which float tokens are zero.
--   Json         values of `json.loads`; dicts keep their insertion order, and `==` of the script is
--                Json.Equality; `validate_scalar` and `canonical_json_v1`. Json.Strict has
--                `strict_object`, `parse_json_strict` and `validate_utf8_bytes`; the scanner of
--                `json.loads` is a parameter that is given the script's hooks.
--   Integer      `require_positive_int`, `require_nonnegative_int`, `parse_positive_decimal` and
--                `parse_json_integer`.
--   Timestamp    RFC3339_UTC_PATTERN and `require_utc_timestamp`.
--   Shape        `require_exact_object`, `require_sha256`, `require_sha1`,
--                `require_sorted_unique_strings` and `validate_named_digests`.
--   Stable       `stable_integer_component`, `stable_string_component`, `derive_stable_array_view`
--                and `require_stable_array_order`. Callbacks take the item and its index; the
--                theorems are about callbacks that do not look at the index, since the script's own
--                callbacks only put it into messages.
--   Evidence     the tables of components and labels, and the checks of requests, human bodies,
--                endpoint bundles, pre-attestations, attestations and manifests, and
--                `response_item` and `response_value`. Evidence.Publication compares two snapshots:
--                `validate_issue_comment_endpoint_equivalence` and `validate_publication_delta_v1`,
--                which read their bundles with Evidence.Access, where `datetime.strptime` reads a text
--                that `require_utc_timestamp` has accepted before, and no other form; Evidence.Bindings has
--                `validate_package_request_bindings`; Evidence.Ledger has `validate_finding_ledger`,
--                `resolution_patch_digest` and `derive_evidence_target_type`, with `str.casefold` as a
--                parameter; Evidence.Sequence has what `validate_evidence_sequence` asks of packages
--                that it has validated one by one. The child modules describe the
--                accepted documents field by field. The base64 decoder of Evidence.Bundle
--                is a parameter.
--   Archive      `preflight_zip_archive` on byte strings. The loop over the directory recurs on the
--                room that its own guard `parsed_entries < 1000` leaves, so it needs no other fuel.
--   Design       scripts/validate_design_assets.py; the file system and the YAML reader are a parameter.
--   Fixtures     scripts/validate_contract_fixtures.py, from the value that `json.loads` read.
--   Boundaries   scripts/validate_workspace_boundaries.py; the TOML reader is a parameter. In
--                Design, Fixtures and Boundaries, `invalid` is the script's ValueError or SystemExit.
--   Links        scripts/validate_markdown_links.py; the file system is a parameter. The fuel of the
--                link search is the length of the text, since a match takes characters off it;
--                Links.Matches says what the search finds, without fuel.
--   Regex        patterns of `re` and a matcher that tries the alternatives in turn; Regex.Language
--                says what a pattern matches. The matcher recurs on the text, without fuel.
--   Secrets      scripts/validate_secret_regressions.py: the patterns, and in Secrets.Scan the walk over
--                the files. The files are a parameter, and so are the letters beyond ASCII that `\b`
--                asks for.
--   Tests        the theorems at concrete inputs.
--
-- How the parts interact: every check of Evidence starts with `require_exact_object` and reads the
-- fields with `item`, which raises a KeyError for a missing key; the field checks come from Shape,
-- Integer and Timestamp; sorting and hashing go through Text and Json.Canonical.
--
-- A sort whose key function may raise computes every key first, as Python does, and then compares.
-- Where every key has passed `validate_scalar` the sort uses the total encoding `utf16_be` directly.
--
-- Not modelled: `validate_evidence_package_v2`, with the semantics of each response that it asks for,
-- so that Evidence.Sequence starts where every package has been validated, and the activation binding,
-- which validates nested packages; the live reader, the secret scan of evidence files and the git side
-- (triplet, history, lineage), which are mostly input and output around the checks above; the entry
-- point, which joins these; the script's self-tests, and everything that is not Python.
mod Prelude
pub mod Text
pub mod Platform
pub mod Numeral
pub mod Json
pub mod Integer
pub mod Timestamp
pub mod Shape
pub mod Stable
pub mod Evidence
pub mod Design
pub mod Fixtures
pub mod Archive
pub mod Boundaries
pub mod Links
pub mod Regex
pub mod Secrets
mod Tests
