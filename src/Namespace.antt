-- ===== src/Namespace.antt =====
-- nestor/src/namespace.rs: how the objects of a namespace are cached. The origin and the metrics of
-- a namespace are opaque and left out of its state; a name is a list of code points.
use nestor.Block.{BlockSize}
use nestor.Common.{ℕ, List, Option, none, some, max}
use nestor.Key.{Consistency, immutable, etag}
use nestor.Latency.{Latency}
use nestor.Latency
use nestor.Policy.{FetchPolicy, Floating, default_policy, seconds}

-- `meta_ttl`.
unfoldable pub meta_ttl : Consistency → Option ℕ
meta_ttl immutable = none
meta_ttl (etag ttl) = some ttl

pub record NamespaceConfig (F : Type 0) : Type 0 where
  pub block_size : BlockSize
  pub fetch_window : ℕ
  pub read_window : ℕ
  pub consistency : Consistency
  pub readahead : ℕ
  pub fetch : FetchPolicy F

-- `BlockSize::default`.
unfoldable pub default_block_size : BlockSize
default_block_size = record { shift = 20 }

unfoldable pub default_config : {F : Type 0} → Floating F → NamespaceConfig F
unfolding default_policy default_block_size
default_config f = record {
  block_size = default_block_size;
  fetch_window = 8;
  read_window = 16;
  consistency = etag (seconds 60);
  readahead = 8;
  fetch = default_policy f;
}

module _ {F : Type 0} where
  unfoldable pub set_block_size : NamespaceConfig F → BlockSize → NamespaceConfig F
  set_block_size c b = record c { block_size = b }

  unfoldable pub set_fetch_window : NamespaceConfig F → ℕ → NamespaceConfig F
  set_fetch_window c blocks = record c { fetch_window = max blocks 1 }

  unfoldable pub set_read_window : NamespaceConfig F → ℕ → NamespaceConfig F
  set_read_window c blocks = record c { read_window = max blocks 1 }

  unfoldable pub set_consistency : NamespaceConfig F → Consistency → NamespaceConfig F
  set_consistency c k = record c { consistency = k }

  unfoldable pub set_readahead : NamespaceConfig F → ℕ → NamespaceConfig F
  set_readahead c blocks = record c { readahead = blocks }

  unfoldable pub set_fetch : NamespaceConfig F → FetchPolicy F → NamespaceConfig F
  set_fetch c policy = record c { fetch = policy }

pub record Namespace (F : Type 0) : Type 0 where
  pub name : List ℕ
  pub config : NamespaceConfig F

pub record NamespaceState (F : Type 0) : Type 0 where
  pub id : ℕ
  pub name : List ℕ
  pub config : NamespaceConfig F
  pub ttfb : Latency
  pub block : Latency

-- `Namespace::new` and `NamespaceState::new`.
unfoldable pub new_namespace : {F : Type 0} → Floating F → List ℕ → Namespace F
unfolding default_config
new_namespace f name = record { name = name; config = default_config f }

unfoldable pub new_state : {F : Type 0} → ℕ → Namespace F → NamespaceState F
new_state id n = record {
  id = id;
  name = n.name;
  config = n.config;
  ttfb = nestor.Latency.default;
  block = nestor.Latency.default;
}
