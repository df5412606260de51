-- ===== src/Tests/Commitment.antt =====
-- An evidence commitment, with a stand-in for JCS.
use tc_ledger.Prelude.{◌≡◌, ◌≢◌, ◌⊎◌, refl, none, some, ◌++◌}
use tc_ledger.Py.Result.{Result, ok, err, value_error}
use tc_ledger.Py.Int.{pos}
use tc_ledger.Py.Str.{Str, Bytes, codes}
use tc_ledger.Py.Hex.{hex}
use tc_ledger.Py.Json.{Fields, int, field, get, as_str}
use tc_ledger.Evidence.Commitment.{payload, evidence_commitment, evidence_commitment-binding}
use tc_ledger.Tests.Toy.{toy}
use tc_ledger.Tests.Record.{record_fields}

-- In the place of `jcs.canonicalize`: the text alone.
abbrev toy_jcs : Fields → Result Bytes
toy_jcs fields = elim (as_str (get fields (codes "text"))) [
  | none ↦ err value_error
  | some s ↦ ok s
]

-- The record with a field that no commitment covers.
abbrev extended_fields : Fields
extended_fields = field (codes "extra") (int (pos 1)) record_fields

abbrev identifier : Str
identifier = codes "tc-ledger:v1:" ++ hex (toy.digest (codes "hi"))

record_commits : evidence_commitment toy toy_jcs record_fields (codes "r") ≡ ok identifier
unfolding evidence_commitment
record_commits = refl

extended_commits : evidence_commitment toy toy_jcs extended_fields (codes "r") ≡ ok identifier
unfolding evidence_commitment
extended_commits = refl

evidence_commitment-binding_example :
    (canonical canonical' : Bytes) × (toy_jcs (payload record_fields (codes "r")) ≡ ok canonical)
    × (toy_jcs (payload extended_fields (codes "r")) ≡ ok canonical')
    × ((canonical ≡ canonical')
        ⊎ ((canonical ≢ canonical') × (toy.digest canonical ≡ toy.digest canonical')))
evidence_commitment-binding_example =
    evidence_commitment-binding toy toy_jcs record_fields extended_fields (codes "r") (codes "r")
      identifier record_commits extended_commits
