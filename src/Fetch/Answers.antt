-- ===== src/Fetch/Answers.antt =====
-- nestor/src/fetch.rs, `consume`: what arrives on the channels of the slots that are served.
use nestor.Block.{BlockSize, bytes}
use nestor.Block.Cover.{block_bytes}
use nestor.Block.Size.{IsValid}
use nestor.Body.{BlockStream}
use nestor.Body.Reassembly.{owed}
use nestor.Common.{
  ℕ, ◌+◌, ◌*◌, ◌≤◌, ◌≡◌, ◌≢◌, refl, ◌∙◌, List, [], ◌∷◌, none, some, false, All, ◌==◌, eq→==,
  if◌then◌else◌, length, slice, ok, u32_max, min, ne→==,
}
use nestor.Fetch.{ReadCtx, Services, Fetcher}
use nestor.Fetch.Consume.{serve}
use nestor.Fetch.Served.{publish_one, publish, Consecutive, serve-publish}
use nestor.Inflight.{Slot, wait, update, remove}
use nestor.Inflight.Sharing.{resolve_once}
use nestor.Key.{Block}
use nestor.Origin.{ObjectMeta}

-- No two slots have the same channel.
abbrev pub Distinct : List Slot → Type 0
Distinct [] = Unit
Distinct (s ∷ slots) = All (λ t. s.channel ≢ t.channel) slots × Distinct slots

module _ (e : Services) (b : BlockSize) (m : ObjectMeta) (xs : List ℕ) where
  abbrev pub block_of : Slot → Block
  block_of s = record { meta = m; content = block_bytes b s.key.index xs }

  wait-publish_one :
      (st : Fetcher e) (s : Slot) (id : ℕ)
      → s.resolved ≡ false
      → wait (publish_one e b m xs st s).inflight id
        ≡ (if id == s.channel then some (ok (block_of s)) else wait st.inflight id)
  unfolding publish_one wait update remove
  wait-publish_one st s id u =
      rw (publish_one, resolve_once e.hash s (ok (block_of s)) st.inflight u) refl

  wait-publish :
      (slots : List Slot) (st : Fetcher e) (id : ℕ)
      → All (λ s. s.resolved ≡ false) slots
      → All (λ s. id ≢ s.channel) slots
      → wait (publish e b m xs st slots).inflight id ≡ wait st.inflight id
  unfolding publish
  wait-publish [] st id u v = refl
  wait-publish (s ∷ slots) st id u v =
      wait-publish slots (publish_one e b m xs st s) id u.1 v.1
      ∙ wait-publish_one st s id u.0
      ∙ rw (ne→== id s.channel v.0) refl

  publish-answers :
      (slots : List Slot) (st : Fetcher e)
      → All (λ s. s.resolved ≡ false) slots
      → Distinct slots
      → All
          (λ s. wait (publish e b m xs st slots).inflight s.channel ≡ some (ok (block_of s)))
          slots
  unfolding publish
  publish-answers [] st u d = tt
  publish-answers (s ∷ slots) st u d = (
    wait-publish slots (publish_one e b m xs st s) s.channel u.1 d.0
        ∙ wait-publish_one st s s.channel u.0
        ∙ rw (eq→== s.channel s.channel refl) refl,
    publish-answers slots (publish_one e b m xs st s) u.1 d.1,
  )

module _ (e : Services) {F : Type 0} (ctx : ReadCtx F) (v : IsValid ctx.config.block_size)
    (m : ObjectMeta) (xs : List ℕ) (size : m.size ≡ length xs) where
  -- Of an object of at most 2^32 - 1 blocks, served from a body that owes its bytes from the first
  -- slot's block up to the last slot's block at least, the channel of every slot holds the bytes of
  -- its own block, if the slots are unresolved, for consecutive blocks and on channels of their
  -- own.
  pub serve-answers :
      (slots : List Slot) (i t next : ℕ) (st : Fetcher e) (body : BlockStream)
      → i + length slots ≤ u32_max
      → t ≤ length xs
      → min ((i + length slots) * bytes ctx.config.block_size) (length xs) ≤ t
      → Consecutive i slots
      → All (λ s. s.resolved ≡ false) slots
      → Distinct slots
      → owed body ≡ slice (i * bytes ctx.config.block_size) t xs
      → let r = serve e ctx m slots next st body in
        (r.4 ≡ none)
        × All
            (λ s.
              wait r.0.inflight s.channel
              ≡ some (
                  ok (record {
                    meta = m;
                    content = block_bytes ctx.config.block_size s.key.index xs;
                  })))
            slots
  serve-answers slots i t next st body h small enough c u d o =
      let (state, left, failure, rest) =
        serve-publish e ctx v xs m size slots i t next st body h small enough c o in
      (failure, rw state (publish-answers e ctx.config.block_size m xs slots st u d))
