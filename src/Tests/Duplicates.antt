-- ===== src/Tests/Duplicates.antt =====
-- Duplicate evidence identifiers of concrete mappings.
use tc_ledger.Prelude.{◌≡◌, refl, [], ◌∷◌}
use tc_ledger.Py.Str.{codes}
use tc_ledger.Evidence.Duplicates.{
  ExportEvidenceIndex, scan_step, scan, find_duplicate_evidence_ids, occurrences,
  find_duplicate_evidence_ids-occurrences,
}

-- The identifiers a, b, b, c, a.
abbrev repeated : ExportEvidenceIndex
repeated = record {
  export_root = [];
  mappings =
      record { evidence_id = codes "a"; export_leaf_index = 0 }
      ∷ record { evidence_id = codes "b"; export_leaf_index = 1 }
      ∷ record { evidence_id = codes "b"; export_leaf_index = 2 }
      ∷ record { evidence_id = codes "c"; export_leaf_index = 3 }
      ∷ record { evidence_id = codes "a"; export_leaf_index = 4 }
      ∷ [];
}

find_duplicate_evidence_ids-occurrences_example :
    occurrences (codes "b") (find_duplicate_evidence_ids repeated) ≡ 1
find_duplicate_evidence_ids-occurrences_example =
    find_duplicate_evidence_ids-occurrences repeated (codes "b")

-- The order is that of the second occurrences: a is seen first and reported last.
order_of_second_occurrences : find_duplicate_evidence_ids repeated ≡ codes "b" ∷ codes "a" ∷ []
unfolding find_duplicate_evidence_ids scan scan_step
order_of_second_occurrences = refl
