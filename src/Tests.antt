-- ===== src/Tests.antt =====
-- Concrete runs of the models.
mod Containers
mod Corpus
mod Cov
mod Engine
mod Core
mod Guards
mod Tokens
mod Blob
mod Batcher
mod Arms
mod Fuzz
mod Slots
mod Hosts
mod Mutate
mod Schedulers
mod Sharded
