-- ===== src/Tests/Transport.antt =====
-- A body in two parts, and a browser's request.
use istanbulmcp.Prelude.{ℕ, Bool, true, false, List, [], ◌∷◌}
use istanbulmcp.Prelude.Bytes.{codes}
use istanbulmcp.Telemetry.Classify.{object, member, number, no_members}
use istanbulmcp.Transport.{Message, request, Scope, Loaded, value}

abbrev parts : List Message
parts = request (1 ∷ []) true ∷ request (2 ∷ []) false ∷ request (3 ∷ []) false ∷ []

abbrev post : Scope
post = record {
  kind = "http";
  method = "POST";
  path = "/mcp/";
  headers = (codes "Origin", codes "o") ∷ [];
}

abbrev json_like : List ℕ → Bool
json_like t = true

abbrev loads : List ℕ → Loaded
loads t = value (object (member "id" (number 1) no_members))

abbrev allowed : List (List ℕ)
allowed = codes "o" ∷ []
