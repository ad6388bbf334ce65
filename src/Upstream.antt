-- ===== src/Upstream.antt =====
-- internal/upstream/upstream.go: the client that reads versions and releases from the web. `url.Parse`
-- and `net.ParseIP` of the Go library are parameters, like the network and the decoders of JSON and
-- YAML. The texts of errors are left out, and so is a client that a test injects.
pub mod Ip
pub mod Egress
pub mod Fetch
pub mod Sources
pub mod Listed
