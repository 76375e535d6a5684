-- ===== src/Postgres/Setup/Laws.antt =====
-- What the registration of the Postgres exporter and the requests after it leave.
use exporter_plus.Prelude.{
  suc, ◌+◌, String, Bool, List, [], ◌∷◌, length, ◌≡◌, ◌≢◌, sym, ap, ◌∙◌, arith, Bool-cases, inl,
  inr,
}
use exporter_plus.Prelude.Outcome.{Outcome, ok, err, panic, ◌>>=◌, bind-ok, ok_inj, Outcome-cases}
use exporter_plus.Postgres.Types.{Desc}
use exporter_plus.Postgres.Dsn.{Env, get_data_sources}
use exporter_plus.Postgres.Exporter.{Exporter, World, Scraped}
use exporter_plus.Postgres.Scrape.{scrape, collect}
use exporter_plus.Postgres.Scrape.Laws.{scrape_counts}
use exporter_plus.Postgres.Setup.{
  apply_opt, apply_opts, new_postgres_exporter, PostgresFlags, after_collect, describe_postgres,
  accepted, must_register, with_sources, new_postgres_handler, after_request, serve,
}

module _ {V D F : Type 0} (w : World V D F) where
  -- a collection that returns counts itself
  collect_counts :
      (elapsed : F) (e : Exporter V D F)
      → ((m : String) → (collect w elapsed e).result ≢ panic m)
      → (collect w elapsed e).exporter.total_scrapes ≡ suc e.total_scrapes
  unfolding collect
  collect_counts elapsed e = elim (Outcome-cases (scrape w e).result) [
    | inl (v, q) ↦ rw (q, collect) (λ _. (scrape_counts w e (λ m p. cc (p, q))).0)
    | inr (inl (v, q)) ↦ rw (q, collect) (λ _. (scrape_counts w e (λ m p. cc (p, q))).0)
    | inr (inr (v, q)) ↦ rw (q, collect) (λ calm. absurd (calm v q))
  ]

  after_collect-exporter :
      (s : Scraped V D F) (o : Outcome (Unit {0})) (e' : Exporter V D F) (descs : List Desc)
      → after_collect w s o ≡ ok (e', descs)
      → (s.exporter ≡ e') × ((m : String) → o ≢ panic m)
  after_collect-exporter s (ok v) e' descs h = (ap (λ p. p.0) (ok_inj h), λ m p. cc)
  after_collect-exporter s (err m) e' descs h = (ap (λ p. p.0) (ok_inj h), λ m p. cc)
  after_collect-exporter s (panic m) e' descs h = cc

module _ {V D F : Type 0} where
  after_request-exporter :
      (s : Scraped V D F) (o : Outcome (Unit {0})) (e' : Exporter V D F)
      → after_request s o ≡ ok e'
      → (s.exporter ≡ e') × ((m : String) → o ≢ panic m)
  after_request-exporter s (ok v) e' h = (ok_inj h, λ m p. cc)
  after_request-exporter s (err m) e' h = (ok_inj h, λ m p. cc)
  after_request-exporter s (panic m) e' h = cc

  serve_counts :
      (requests : List (World V D F × F)) (e e' : Exporter V D F)
      → serve requests e ≡ ok e'
      → e'.total_scrapes ≡ length requests + e.total_scrapes
  unfolding serve
  serve_counts [] e e' h =
      ap (λ (x : Exporter V D F). x.total_scrapes) (sym (ok_inj h)) ∙ omega arith
  serve_counts ((w, elapsed) ∷ requests) e e' h =
      let s = collect w elapsed e in
      let (mid, e1, e2) = bind-ok (after_request s s.result) (serve requests) h in
      let (same, calm) = after_request-exporter s s.result mid e1 in
      omega (
        arith,
        serve_counts requests mid e' e2,
        collect_counts w elapsed e calm,
        ap (λ (x : Exporter V D F). x.total_scrapes) same,
      )

module _ {V D F : Type 0} (w : World V D F) (accepts : List Desc → Bool) where
  accepted-same :
      (e e' : Exporter V D F) (descs : List Desc) → accepted w accepts (e, descs) ≡ ok e' → e ≡ e'
  accepted-same e e' descs = elim (Bool-cases (accepts descs)) [
    | inl q ↦ rw q (λ h. ok_inj h)
    | inr q ↦ rw q (λ h. cc)
  ]

  with_sources-fresh :
      (flags : PostgresFlags) (dsn : List String) (e : Exporter V D F)
      → with_sources w accepts flags dsn ≡ ok e
      → e.total_scrapes ≡ 0
  unfolding new_postgres_exporter apply_opts apply_opt
  with_sources-fresh flags [] e h = cc
  with_sources-fresh flags (d ∷ dsn) e h =
      ap (λ (x : Exporter V D F). x.total_scrapes) (sym (ok_inj h))

  must_register-scrapes :
      (elapsed : F) (e e' : Exporter V D F)
      → must_register w accepts elapsed e ≡ ok e'
      → e'.total_scrapes ≡ suc e.total_scrapes
  unfolding must_register describe_postgres
  must_register-scrapes elapsed e e' h =
      let s = collect w elapsed e in
      let ((mid, descs), e1, e2) = bind-ok (after_collect w s s.result) (accepted w accepts) h in
      let (same, calm) = after_collect-exporter w s s.result mid descs e1 in
      ap (λ (x : Exporter V D F). x.total_scrapes) (sym (accepted-same mid e' descs e2) ∙ sym same)
      ∙ collect_counts w elapsed e calm

  -- If the handler is made, and then serves requests, the number of scrapes is one more than that of
  -- the requests: the registration describes the exporter, which scrapes.
  pub handler_scrapes :
      (elapsed : F) (env : Env) (flags : PostgresFlags) (requests : List (World V D F × F))
      (e e' : Exporter V D F)
      → new_postgres_handler w accepts elapsed env flags ≡ ok e
      → serve requests e ≡ ok e'
      → e'.total_scrapes ≡ suc (length requests)
  unfolding new_postgres_handler
  handler_scrapes elapsed env flags requests e e' h k =
      let (fresh, e1, e2) =
        bind-ok (get_data_sources env >>= with_sources w accepts flags)
          (must_register w accepts elapsed) h in
      let (dsn, e3, e4) = bind-ok (get_data_sources env) (with_sources w accepts flags) e1 in
      omega (
        arith,
        serve_counts requests e e' k,
        must_register-scrapes elapsed fresh e e2,
        with_sources-fresh flags dsn fresh e4,
      )
