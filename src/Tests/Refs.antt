-- ===== src/Tests/Refs.antt =====
-- apps/app-ui/lib/ref.ts at "helm:cert-manager/cm" and its neighbours.
use kdelta.Prelude.{[], ◌∷◌, ◌++◌, none, some, ◌≡◌, refl, ◌↔◌, inl, inr, arith}
use kdelta.Text.{js, split_off, index_of}
use kdelta.Text.Split.{Lacks}
use kdelta.Ref.{ResourceRef, ref_to_string, parse_ref}
use kdelta.Ref.RoundTrip.{IsCanonical, print-parse_iff}
use kdelta.Ref.Server.{server_parse, parse_ref-server_parse_iff}

abbrev cm : ResourceRef
cm = record { detector = js "helm"; namespace = js "cert"; name = js "cm" }

abbrev node : ResourceRef
node = record { detector = js "helm"; namespace = []; name = js "node" }

parse_tests :
    (parse_ref (js "helm:cert/cm") ≡ some cm)
    × (parse_ref (js "helm:node") ≡ some node)
    × (parse_ref (js "helm:") ≡ none)
    × (parse_ref (js ":node") ≡ none)
    × (parse_ref (js "helm") ≡ none)
    × (ref_to_string none ≡ js "?")
    × (ref_to_string (some cm) ≡ js "helm:cert/cm")
unfolding parse_ref split_off ref_to_string js
parse_tests = (refl, refl, refl, refl, refl, refl, refl)

-- The UI cuts a third part off and takes an empty namespace; the server does neither.
parse_differences :
    (parse_ref (js "helm:node:x") ≡ some node)
    × (server_parse (js "helm:/node") ≡ none)
    × (parse_ref (js "helm:/node") ≡ some node)
unfolding parse_ref split_off server_parse js
parse_differences = (refl, refl, refl)

cm-IsCanonical : IsCanonical cm
unfolding js
cm-IsCanonical = record {
  plain = record {
    detected = λ e. cc;
    detector_colon = omega arith;
    namespace_colon = omega arith;
    namespace_slash = omega arith;
    name_colon = omega arith;
  };
  scoped = inl (λ e. cc);
}

node-IsCanonical : IsCanonical node
unfolding js
node-IsCanonical = record {
  plain = record {
    detected = λ e. cc;
    detector_colon = omega arith;
    namespace_colon = tt;
    namespace_slash = tt;
    name_colon = omega arith;
  };
  scoped = inr ((λ e. cc), omega arith);
}

print-parse_iff_example : (parse_ref (ref_to_string (some cm)) ≡ some cm) ↔ IsCanonical cm
print-parse_iff_example = print-parse_iff cm

helm_Lacks : Lacks b':' (js "helm")
unfolding js
helm_Lacks = omega arith

cert_Lacks : Lacks b':' (js "cert/cm")
unfolding js
cert_Lacks = omega arith

parse_cm : parse_ref (js "helm" ++ (b':' ∷ js "cert/cm")) ≡ some cm
unfolding parse_ref split_off js
parse_cm = refl

server_cm : server_parse (js "helm:cert/cm") ≡ some cm
unfolding server_parse index_of js
server_cm = refl

parse_ref-server_parse_iff_example :
    (parse_ref (js "helm:cert/cm") ≡ some cm) ↔ (Lacks b':' cm.namespace × Lacks b':' cm.name)
parse_ref-server_parse_iff_example = parse_ref-server_parse_iff (js "helm:cert/cm") cm server_cm

cm_ne_node : cm ≡ node → ⊥
unfolding js
cm_ne_node e = cc
