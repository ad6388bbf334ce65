-- ===== src/NextConfig.antt =====
-- apps/app-ui/next.config.ts: the build's configuration by phase, and that of the documentation site
-- in apps/docs-ui/next.config.ts. The name of the development phase is next's constant, a parameter.
use kdelta.Prelude.{
  ℕ, Bool, true, false, List, [], ◌∷◌, ◌++◌, Option, none, some, if◌then◌else◌, ◌≡◌, ◌⊎◌, inl, inr,
  refl, Bool-cases, All,
}
use kdelta.Text.{Text, js, text_eq}

pub record Rewrite : Type 0 where
  pub source : Text
  pub destination : Text

-- The keys that the two configurations set; `none` and `[]` where a key is not set.
pub record NextConfig : Type 0 where
  pub transpile_packages : List Text
  pub proxy_timeout : Option ℕ
  pub compress : Option Bool
  pub rewrites : List Rewrite
  pub output : Option Text
  pub images_unoptimized : Bool

unfoldable pub base : NextConfig
unfolding js
base = record {
  transpile_packages = js "@kdelta/api" ∷ js "@kdelta/ui" ∷ [];
  proxy_timeout = none;
  compress = none;
  rewrites = [];
  output = none;
  images_unoptimized = false;
}

unfoldable pub docs_config : NextConfig
unfolding js
docs_config = record {
  transpile_packages = js "@kdelta/ui" ∷ [];
  proxy_timeout = none;
  compress = none;
  rewrites = [];
  output = some (js "export");
  images_unoptimized = true;
}

-- A configuration exports statically or rewrites, never both.
pub record IsConsistent (packages : List Text) (c : NextConfig) : Type 0 where
  pub exclusive : (c.output ≡ none) ⊎ (c.rewrites ≡ [])
  -- every rewrite keeps the path below the server's origin
  pub same_path :
      All (λ (r : Rewrite). r.destination ≡ js "http://localhost:8080" ++ r.source) c.rewrites
  -- a proxied stream is not buffered by compression
  pub unbuffered : (c.rewrites ≡ []) ⊎ (c.compress ≡ some false)
  -- the packages of the workspace that the site imports are compiled with it
  pub transpiled : c.transpile_packages ≡ packages

docs_config-IsConsistent : IsConsistent (js "@kdelta/ui" ∷ []) docs_config
unfolding docs_config
docs_config-IsConsistent = record {
  exclusive = inr refl;
  same_path = tt;
  unbuffered = inl refl;
  transpiled = refl;
}

module _ (phase_development_server : Text) where
  unfoldable pub config : Text → NextConfig
  unfolding base js text_eq
  config phase =
      if text_eq phase phase_development_server
      then record base {
        proxy_timeout = some 600_000;
        compress = some false;
        rewrites =
            record {
              source = js "/rpc/:path*";
              destination = js "http://localhost:8080/rpc/:path*";
            }
            ∷ [];
      }
      else record base { output = some (js "export"); images_unoptimized = true }

  app_config-IsConsistent :
      (phase : Text) → IsConsistent (js "@kdelta/api" ∷ js "@kdelta/ui" ∷ []) (config phase)
  unfolding config
  app_config-IsConsistent phase = elim (Bool-cases (text_eq phase phase_development_server)) [
    | inl dev ↦
        rw (dev, config)
          (record {
            exclusive = inl refl;
            same_path = (refl, tt);
            unbuffered = inr refl;
            transpiled = refl;
          })
    | inr build ↦
        rw (build, config)
          (record {
            exclusive = inr refl;
            same_path = tt;
            unbuffered = inl refl;
            transpiled = refl;
          })
  ]

  -- For the dashboard in every phase, and for the documentation site: rewrites and the static export
  -- exclude one another, a rewrite keeps the path, where streams are proxied compression is off, and
  -- the workspace's packages are compiled, the API's for the dashboard alone.
  config-IsConsistent :
      (phase : Text)
      → IsConsistent (js "@kdelta/api" ∷ js "@kdelta/ui" ∷ []) (config phase)
        × IsConsistent (js "@kdelta/ui" ∷ []) docs_config
  config-IsConsistent phase = (app_config-IsConsistent phase, docs_config-IsConsistent)
