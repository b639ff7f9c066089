-- ===== src/Node/DataModel/Tests.antt =====
-- Tests of the data model, with numbers as readings.
use n32r.Prelude.{ℕ, ◌≡◌, ◌≢◌, refl, Bool, true, some, List, [], ◌∷◌, get_elem?}
use n32r.Node.DataModel.{Update, Model, init, zeroed, increment_seq, build}
use n32r.Node.DataModel.Bounds.{op_increment, run, run_all, IsValid, run_all-IsValid}
use n32r.Node.DataModel.Publish.{build_twice}

abbrev encode : Update ℕ → List ℕ × Bool
encode u = (u.sequence_id ∷ [], true)

-- One frame is built.
abbrev first : Model ℕ
first = record {
  current = record (zeroed 0) { frequency_hz = 500; sequence_id = 1 };
  last_published = zeroed 0;
  initialized = true;
  encode_buffers = [] ∷ ([] ∷ []);
  next_encode_index = 0;
}

abbrev second : Model ℕ
second = record first {
  last_published = first.current;
  encode_buffers = (1 ∷ []) ∷ ([] ∷ []);
  next_encode_index = 1;
}

abbrev third : Model ℕ
third = record second { encode_buffers = (1 ∷ []) ∷ ((1 ∷ []) ∷ []); next_encode_index = 0 }

staged_first : build encode true first ≡ (some 0, second)
unfolding build zeroed
staged_first = refl

staged_second : build encode true second ≡ (some 1, third)
unfolding build zeroed
staged_second = refl

first-IsValid : IsValid first
unfolding init zeroed run_all run increment_seq
first-IsValid = run_all-IsValid 0 (op_increment true ∷ [])

build_twice_example :
    (◌≢◌ {A = ℕ} 0 1)
    × (get_elem? second.encode_buffers 0 ≡ some (1 ∷ []))
    × (get_elem? third.encode_buffers 0 ≡ some (1 ∷ []))
unfolding zeroed
build_twice_example =
    build_twice encode encode true true first first-IsValid staged_first staged_second
