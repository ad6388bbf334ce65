-- ===== src/Tests.antt =====
-- Runs of the models at concrete inputs, and the theorems applied there.
mod Refs
mod Pages
mod Lists
mod Panels
mod Labels
mod Frames
mod Flows
mod Scans
mod Cluster
mod Server
mod Upstream
mod Web
mod Resolver
mod Detectors
mod Assess
