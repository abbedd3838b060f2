-- ===== src/InputBoundary/Tests.antt =====
-- Runs and examples of the input boundary.
use uns_kit.Kit.{ℕ, ◌≡◌, refl, ◌⊎◌, List, [], ◌∷◌, String, ok, err}
use uns_kit.InputBoundary.{unique_input_boundary}
use uns_kit.InputBoundary.Unique.{Boundary, unique_input_boundary-Boundary}

abbrev seen : List String
seen = "a" ∷ "b" ∷ "a" ∷ "c" ∷ []

abbrev buffer : List String
buffer = "b" ∷ "a" ∷ "c" ∷ "d" ∷ []

overlap : unique_input_boundary seen buffer ≡ ok 3
unfolding unique_input_boundary
overlap = refl

missing :
    unique_input_boundary seen ("d" ∷ [])
    ≡ err "MQTT input overlap is missing or ambiguous; successor stays passive"
unfolding unique_input_boundary
missing = refl

unique_input_boundary-Boundary_example : ((seen ≡ []) × ◌≡◌ {A = ℕ} 3 0) ⊎ Boundary seen buffer 3
unique_input_boundary-Boundary_example = unique_input_boundary-Boundary seen buffer 3 overlap
