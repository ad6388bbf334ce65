-- ===== src/DocsPage.antt =====
-- apps/docs-ui/app/page.tsx and layout.tsx: the one page of the documentation site, as data and a
-- tree of markup. JSX joins the lines of a text with spaces.
pub mod Sections
pub mod Content
use kdelta.Prelude.{ℕ, suc, List, [], ◌∷◌, ◌++◌, String}
use kdelta.Text.{Text, js, decimal}
use kdelta.Ui.{string, Markup, empty, text, ◌<>◌, element, Styling, attr, each}
use kdelta.Ui.Card.{card, card_header, card_title, card_description, card_content}

unfoldable pub repo : Text
unfolding js
repo = js "https://github.com/shadiramadan/kdelta"

-- One line and the next.
infixr 20 ◌//◌
abbrev ◌//◌ : Text → Text → Text
s // t = s ++ (10 ∷ t)

unfoldable pub docker_quickstart : Text
unfolding js
docker_quickstart =
    js "docker run --rm -p 8080:8080 \\"
    // js "  -v ~/.kube:/home/nonroot/.kube:ro \\"
    // js "  -e CLAUDE_CODE_OAUTH_TOKEN \\"
    // js "  ghcr.io/shadiramadan/kdelta:latest serve --bind :8080"

unfoldable pub cli_tour : Text
unfolding js
cli_tour =
    js "kdelta scan                    # detect deployed resources + versions + upstream links"
    // js "kdelta resources               # list detected resources from the cached scan"
    // js "kdelta versions <resource>     # versions since the deployed one (no AI)"
    // js "kdelta changes  <resource>     # changelog for the version range"
    // js "kdelta impact   <resource>     # AI-assessed blast radius of the upgrade"
    // js "kdelta serve                   # ConnectRPC API + embedded web UI"

pub record Stage : Type 0 where
  pub stage : Text
  pub question : Text
  pub detail : Text

unfoldable pub pipeline : List Stage
unfolding js
pipeline =
    record {
      stage = js "scan";
      question = js "What is deployed?";
      detail =
          js
            "Detectors read the cluster — Helm release storage today, more on the roadmap — and upstream identity is resolved from public indexes, verified against the deployed chart's own metadata.";
    }
    ∷ record {
      stage = js "versions";
      question = js "What version is it?";
      detail =
          js
            "Deterministic, no AI: versions are enumerated from the upstream source verified at scan time and ordered against the deployed version under the stream's scheme.";
    }
    ∷ record {
      stage = js "changes";
      question = js "What changed upstream?";
      detail =
          js
            "Release notes are fetched verbatim, then structured by a model into a normalized change set — every entry labeled with its provenance and streamed as it extracts.";
    }
    ∷ record {
      stage = js "impact";
      question = js "What breaks if you upgrade?";
      detail =
          js
            "An agent cross-references the change set against live cluster state through a confined, read-only tool surface, and reports findings, actions, and honest gaps.";
    }
    ∷ []

pub record Feature : Type 0 where
  pub title : Text
  pub body : Text

unfoldable pub features : List Feature
unfolding js
features =
    record {
      title = js "One binary";
      body =
          js
            "The CLI, the ConnectRPC API server, and the embedded web UI ship together. Commands run against an in-process server by default, or a remote one with --server — same code path either way.";
    }
    ∷ record {
      title = js "Protobuf-first";
      body =
          js
            "Every contract lives in proto/ with protovalidate rules; the Go server and the TypeScript UI consume generated clients from the same source of truth.";
    }
    ∷ record {
      title = js "Provenance on everything";
      body =
          js
            "Observed from the cluster, fetched verbatim, or AI-extracted — how each fact was produced is a schema field, not a footnote, so results can be audited.";
    }
    ∷ record {
      title = js "A confined agent";
      body =
          js
            "Release notes are third-party input. The impact agent runs with built-in tools disabled and reaches the cluster only through a no-secrets allowlisted view — Secrets are never listable and env values are redacted.";
    }
    ∷ record {
      title = js "A cached pipeline";
      body =
          js
            "Each stage reuses the previous stage's cached output. Change sets are cluster-independent, so an assessment never re-scans, re-resolves, or re-extracts what is already known.";
    }
    ∷ record {
      title = js "Signed releases";
      body =
          js
            "Container images on GHCR are cosign-signed with SBOMs and build-provenance attestations, published by CI from tagged releases.";
    }
    ∷ []

-- A text that is written out, and an element with class names.
abbrev pub say : String → Markup
say t = text (js t)

abbrev pub classed : String → String → Markup → Markup
classed tag names children = element tag (attr "className" names ∷ []) children

-- `<code className="font-mono">`
abbrev pub mono : String → Markup
mono t = classed "code" "font-mono" (say t)

-- `<a href={`${repo}path`}>`
abbrev pub repo_link : String → Markup → Markup
repo_link path children = element "a" ((js "href", string (repo ++ js path)) ∷ []) children

-- The same, with the class names of a link in a text.
abbrev pub text_link : String → String → Markup
text_link path t =
    element "a"
      ((js "href", string (repo ++ js path))
        ∷ attr "className" "underline underline-offset-4 hover:text-primary"
        ∷ [])
      (say t)

-- `{xs.map((x, index) => f)}` from an index on
abbrev pub each_from : {A : Type 0} → ℕ → List A → (ℕ → A → Markup) → Markup
each_from i [] f = empty
each_from i (x ∷ xs) f = f i x <> each_from (suc i) xs f

module _ (s : Styling) where
  unfoldable pub stage_card : ℕ → Stage → Markup
  unfolding card card_header card_title card_description card_content
  stage_card index step = card s ((js "key", string step.stage) ∷ []) (
      card_header s [] (
        card_title s (attr "className" "flex items-baseline gap-2 font-mono text-base" ∷ []) (
          classed "span" "text-muted-foreground/60" (text (decimal (suc index))) <> text step.stage)
        <> card_description s [] (text step.question))
      <> card_content s [] (classed "p" "text-sm text-muted-foreground" (text step.detail)))

  unfoldable pub feature_card : Feature → Markup
  unfolding card card_header card_title card_content
  feature_card feature = card s ((js "key", string feature.title) ∷ []) (
      card_header s [] (card_title s (attr "className" "text-base" ∷ []) (text feature.title))
      <> card_content s [] (classed "p" "text-sm text-muted-foreground" (text feature.body)))

-- `RootLayout` of the site
unfoldable pub docs_layout : Markup → Markup
docs_layout children =
    element "html" (attr "lang" "en" ∷ [])
      (classed "body" "min-h-screen bg-background text-foreground antialiased" children)
