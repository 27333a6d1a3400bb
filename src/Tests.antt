-- ===== src/Tests.antt =====
-- Runs of the models on small inputs, and the theorems at such inputs.
mod Runners
mod Pipeline
mod Samples
mod Schema
mod Bootstrap
mod Disks
mod Deduplication
mod Flux
mod Urls
mod Ci
mod Simple
mod Openapi
mod Hardware
