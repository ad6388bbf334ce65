-- ===== src/DocsPage/Sections.antt =====
-- apps/docs-ui/app/page.tsx: the sections of the page.
use kdelta.Prelude.{true, [], ◌∷◌}
use kdelta.Text.{js}
use kdelta.Ui.{boolean, Markup, empty, text, ◌<>◌, element, Styling, attr, each}
use kdelta.Ui.Button.{button}
use kdelta.DocsPage.{
  repo, docker_quickstart, cli_tour, pipeline, features, say, classed, mono, repo_link, text_link,
  each_from, stage_card, feature_card,
}

unfoldable pub notice : Markup
unfolding repo attr
notice =
    classed "output"
      "block rounded-xl border-2 border-dashed border-primary/60 bg-primary/10 px-5 py-4 text-center"
      (classed "p" "text-lg font-semibold tracking-tight"
          -- the sign is two code units
          (text (55357 ∷ 56999 ∷ js " Under construction"))
        <> classed "p" "mt-1 text-sm text-muted-foreground" (
            say "kdelta is in early development and this site is a work in progress — the"
            <> say " "
            <> text_link "#readme" "README"
            <> say " "
            <> say "is the canonical reference for now."))

module _ (s : Styling) where
  unfoldable pub site_header : Markup
  unfolding repo attr button
  site_header = classed "header" "space-y-5 pt-6" (
      classed "h1" "text-6xl font-semibold tracking-tight"
        (say "k" <> classed "span" "text-primary" (say "Δ"))
      <> classed "p" "max-w-2xl text-xl text-muted-foreground" (
          say "kdelta answers four questions about your Kubernetes cluster:"
          <> say " "
          <> classed "span" "text-foreground" (
              say
                "what's deployed, what version is it, what changed upstream since then, and what happens to the rest of the system if you upgrade it."))
      <> classed "div" "flex flex-wrap items-center gap-3" (
          button s ((js "asChild", boolean true) ∷ []) (repo_link "" (say "GitHub"))
          <> button s ((js "asChild", boolean true) ∷ attr "variant" "outline" ∷ [])
              (repo_link "/releases" (say "Releases"))
          <> button s ((js "asChild", boolean true) ∷ attr "variant" "outline" ∷ [])
              (repo_link "/discussions" (say "Discussions"))
          <> repo_link "/releases/latest" (
              element "img"
                (attr "src" "https://img.shields.io/github/v/release/shadiramadan/kdelta"
                  ∷ attr "alt" "Latest kdelta release"
                  ∷ attr "className" "h-5"
                  ∷ [])
                empty)))

  unfoldable pub how_it_works : Markup
  unfolding stage_card pipeline
  how_it_works = classed "section" "space-y-4" (
      classed "h2" "text-2xl font-semibold tracking-tight" (say "How it works")
      <> classed "p" "text-sm text-muted-foreground" (
          say "A four-stage pipeline; each stage caches its output for the next. Everything before "
          <> mono "impact"
          <> say " is deterministic or provenance-labeled.")
      <> classed "div" "grid gap-4 sm:grid-cols-2" (each_from 0 pipeline (stage_card s)))

unfoldable pub getting_started : Markup
unfolding repo attr docker_quickstart cli_tour
getting_started = classed "section" "space-y-4" (
    classed "h2" "text-2xl font-semibold tracking-tight" (say "Getting started")
    <> classed "p" "text-sm text-muted-foreground" (
        say "Run the container image — CLI, API, and web UI in one — then open"
        <> say " "
        <> mono "http://localhost:8080"
        <> say ". Drop the"
        <> say " "
        <> mono "-v"
        <> say "/"
        <> mono "-e"
        <> say " flags for a UI-only tour without cluster or AI access.")
    <> classed "pre"
        "overflow-x-auto rounded-xl border border-border bg-card/60 p-4 font-mono text-sm text-primary"
        (text docker_quickstart)
    <> classed "p" "text-sm text-muted-foreground" (
        say "The CLI runs the same pipeline against your current kubeconfig context. "
        <> mono "scan"
        <> say " and"
        <> say " "
        <> mono "versions"
        <> say " need only cluster and network access; "
        <> mono "impact"
        <> say " needs a Claude credential (a subscription via the"
        <> say " "
        <> mono "claude"
        <> say " CLI, or an API key), which"
        <> say " "
        <> mono "changes"
        <> say " uses too — without one it serves the release notes verbatim.")
    <> classed "pre"
        "overflow-x-auto rounded-xl border border-border bg-card/60 p-4 font-mono text-sm"
        (text cli_tour)
    <> classed "p" "text-sm text-muted-foreground" (
        say "Installing from source? "
        <> mono "go install github.com/shadiramadan/kdelta@latest"
        <> say " builds the CLI and API (the web UI is embedded by container builds and"
        <> say " "
        <> mono "task install"
        <> say " from a clone). See"
        <> say " "
        <> text_link "/blob/main/CONTRIBUTING.md" "CONTRIBUTING.md"
        <> say " "
        <> say "for the dev environment."))

module _ (s : Styling) where
  unfoldable pub underneath : Markup
  unfolding repo feature_card features
  underneath = classed "section" "space-y-4" (
      classed "h2" "text-2xl font-semibold tracking-tight" (say "What's underneath")
      <> classed "div" "grid gap-4 sm:grid-cols-2 lg:grid-cols-3" (each features (feature_card s))
      <> classed "p" "text-sm text-muted-foreground" (
          say
            "The full picture — trust boundaries, the detector seam, cache invalidation — lives in"
          <> say " "
          <> text_link "/blob/main/docs/ARCHITECTURE.md" "ARCHITECTURE.md"
          <> say "; what's deliberately not built yet lives in"
          <> say " "
          <> text_link "/blob/main/docs/ROADMAP.md" "ROADMAP.md"
          <> say "."))

unfoldable pub page_footer : Markup
unfolding attr
page_footer =
    classed "footer" "space-y-1 border-t border-border pt-6 text-xs text-muted-foreground/70" (
      element "p" [] (
        say
          "Apache-2.0 · kdelta.dev is the documentation home for the kdelta project — documentation is under construction.")
      <> element "p" [] (
          say
            "Kubernetes is a registered trademark of The Linux Foundation; kdelta is not affiliated with or endorsed by the Kubernetes project or any project it detects."))

-- `Home`
unfoldable pub home : Styling → Markup
unfolding notice site_header how_it_works getting_started underneath page_footer
home s =
    classed "main" "mx-auto flex min-h-screen max-w-4xl flex-col gap-16 px-6 py-10"
      (notice <> site_header s <> how_it_works s <> getting_started <> underneath s <> page_footer)
