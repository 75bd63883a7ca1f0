-- ===== src/Services/Chat/Isolation.antt =====
-- The response cache between users.
use ultimate_assistant_ai_ga.Services.Chat.{
  ChatRequest, ChatHost, chat, cache_response, is_cacheable, cache_entry, query,
}
use ultimate_assistant_ai_ga.Services.Chat.Frame.{chat-Spares}
use ultimate_assistant_ai_ga.Base.{
  ℕ, String, some, ◌≡◌, ◌≢◌, refl, sym, ap, ◌∙◌, inl, inr, Bool-cases, if_neg, ◌&&◌,
}
use ultimate_assistant_ai_ga.Base.Text.{truthy, or_else}
use ultimate_assistant_ai_ga.Core.Security.{Uuid}
use ultimate_assistant_ai_ga.Redis.{Key-discrete, cache, RedisLaws, text}
use ultimate_assistant_ai_ga.Db.{ChatWorld}
use ultimate_assistant_ai_ga.Services.Cache.{
  CacheQuery, CacheCodecLaws, CachedResponse, cache_key, cache_ttl,
}
use ultimate_assistant_ai_ga.Services.Cache

print-injective : (u : Uuid) (m n : ℕ) → u.print m ≡ u.print n → m ≡ n
print-injective u m n e =
    let x : some m ≡ some n = sym (u.parse-print m) ∙ ap u.parse e ∙ u.parse-print n in cc

cache-injective : {s t : String} → cache s ≡ cache t → s ≡ t
cache-injective e = cc

module _ {Store V : Type 0} (host : ChatHost Store V) (server : RedisLaws host.server)
    (codec : CacheCodecLaws host.codec) where
  -- storing one user's response leaves what another looks up
  set-other :
      (now t : ℕ) (q p : CacheQuery) (r : CachedResponse) (s : Store)
      → q.user_id ≢ p.user_id
      → Cache.get host.server host.codec now q (Cache.set host.server host.codec t p r s)
        ≡ Cache.get host.server host.codec now q s
  unfolding Cache.get Cache.set
  set-other now t q p r s ne =
      let differ : cache (host.codec.sha256 p) ≢ cache (host.codec.sha256 q) = λ e.
        ne
          (ap (λ (x : CacheQuery). x.user_id) (sym (codec.sha256-injective (cache-injective e)))) in
      rw
        (
          server.get-setex now t cache_ttl (cache (host.codec.sha256 q))
              (cache (host.codec.sha256 p)) (text (host.codec.dumps r)) s,
          if_neg (Key-discrete (cache (host.codec.sha256 p)) (cache (host.codec.sha256 q))) differ,
        )
        refl

  -- A chat changes nothing of what the response cache holds for any other user, whatever they ask and when.
  pub chat-isolated :
      (req : ChatRequest) (v u : ℕ) (now : ℕ) (provider model : String) (asked : ChatRequest)
      (w : ChatWorld Store V)
      → u ≢ v
      → Cache.get host.server host.codec now
          (query host asked u provider model)
          (chat host req v w).1.redis
        ≡ Cache.get host.server host.codec now (query host asked u provider model) w.redis
  unfolding cache_response
  chat-isolated req v u now provider model asked w ne =
      let q = query host asked u provider model in
      let differ : q.user_id ≢ host.uuid.print v = λ e. ne (print-injective host.uuid u v e) in
      chat-Spares host
        (λ s.
          Cache.get host.server host.codec now q s ≡ Cache.get host.server host.codec now q w.redis)
        req v
        (λ c cost r w' h. elim (Bool-cases (is_cacheable host req && truthy r.content)) [
          | inl b ↦ rw b (
              set-other now (host.now w') q
                (query host req v (or_else r.provider "") (or_else r.model ""))
                (cache_entry host c cost r) w'.redis differ
              ∙ h)
          | inr b ↦ rw b h
        ])
        w refl
