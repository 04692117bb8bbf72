-- ===== src/Canonical.antt =====
-- canonical.py: the canonical bytes of a document and their digest. The JSON writer, SHA-256 and the
-- text of a `datetime` are the libraries', so they are parameters.
use skill_governance_control.Base.{ℕ, String, ◌<>◌, List, DateTime}
use skill_governance_control.Models.{Value}

pub record Canon : Type 0 where
  -- `json.dumps(payload, sort_keys=True, separators=(",", ":"), ...).encode("utf-8")`
  pub dumps : Value → List ℕ
  -- `hashlib.sha256(...).hexdigest()`
  pub sha256_hex : List ℕ → String
  -- A `datetime` in JSON mode.
  pub iso : DateTime → String

unfoldable pub canonical_json : Canon → Value → List ℕ
canonical_json c value = c.dumps value

unfoldable pub canonical_digest : Canon → Value → String
unfolding canonical_json
canonical_digest c value = "sha256:" <> c.sha256_hex (canonical_json c value)
