-- ===== src/Canary/Knocks/Joins.antt =====
-- listener/canary/knock.go: a further knock of UDP joins the group of its ends.
use honeytrap.Base.{
  ℕ, ◌+◌, ◌≡◌, ◌≢◌, refl, arith, ap, ◌∙◌, Bool, true, false, List, [], ◌∷◌, ◌++◌, ◌==◌, none,
  ==_iff, map,
}
use honeytrap.Base.Bytes.{All}
use honeytrap.Net.Ip.{bytes_eq_refl, ip_equal_refl}
use honeytrap.Canary.Knocks.{
  Ends, Knock, udp_port, Kind, of_udp, KnockGroup, Detector, find_same, add_item, same_knock,
  same_group, new_group, touched, update, on_knock,
}

no_same :
    (e : Ends) (q : ℕ) (seen : List ℕ)
    → All (λ p. p ≢ q) seen
    → find_same (same_knock of_udp) (udp_port e q) (map (udp_port e) seen) ≡ none
unfolding find_same same_knock
no_same e q [] h = refl
no_same e q (p ∷ seen) h =
    let differs = h.0 in
    let other : (q == p) ≡ false = ground arith in rw other (no_same e q seen h.1)

-- A knock between the ends of a group of UDP is of that group.
joins :
    (ident now q : ℕ) (g : KnockGroup)
    → g.made_by ≡ of_udp
    → same_group (new_group ident now (udp_port g.ends q)) g ≡ true
unfolding same_group
joins ident now q g udp =
    rw
      (
        udp,
        bytes_eq_refl g.ends.source_hardware_addr,
        bytes_eq_refl g.ends.destination_hardware_addr,
        ip_equal_refl g.ends.source_ip,
        ip_equal_refl g.ends.destination_ip,
      )
      refl

module _ {A : Type 0} (same : A → A → Bool) (item : A) where
  add_new :
      (items : List A)
      → find_same same item items ≡ none
      → add_item same item items ≡ (items ++ (item ∷ []), item)
  unfolding add_item
  add_new items h = rw (add_item, h) refl

  add_first :
      (x : A) (items : List A)
      → same item x ≡ true
      → add_item same item (x ∷ items) ≡ (x ∷ items, x)
  unfolding add_item find_same
  add_first x items h = rw (add_item, find_same, h) refl

-- The group of the ports, with its last knock.
abbrev pub scanning : ℕ → ℕ → List ℕ → KnockGroup → KnockGroup
scanning now count ports g = record g {
  count = count;
  last = now;
  knocks = map (udp_port g.ends) ports;
}

map-last :
    (e : Ends) (q : ℕ) (seen : List ℕ)
    → map (udp_port e) seen ++ (udp_port e q ∷ []) ≡ map (udp_port e) (seen ++ (q ∷ []))
map-last e q [] = refl
map-last e q (p ∷ seen) = ap (λ (ks : List Knock). udp_port e p ∷ ks) (map-last e q seen)

one_more :
    (now q : ℕ) (g : KnockGroup) (seen : List ℕ)
    → g.made_by ≡ of_udp
    → g.knocks ≡ map (udp_port g.ends) seen
    → All (λ p. p ≢ q) seen
    → touched now (udp_port g.ends q) g ≡ scanning now (g.count + 1) (seen ++ (q ∷ [])) g
unfolding touched add_item
one_more now q g seen udp known new =
    ap (λ (ks : List Knock). record g { count = g.count + 1; last = now; knocks = ks })
      (ap (λ (k : Kind). (add_item (same_knock k) (udp_port g.ends q) g.knocks).0) udp
        ∙ ap (λ (ks : List Knock). (add_item (same_knock of_udp) (udp_port g.ends q) ks).0) known
        ∙ ap (λ r. r.0)
            (add_new (same_knock of_udp) (udp_port g.ends q) (map (udp_port g.ends) seen)
              (no_same g.ends q seen new))
        ∙ map-last g.ends q seen)

-- The only group takes another knock.
pub one_group :
    (now q : ℕ) (g : KnockGroup) (seen : List ℕ) (d : Detector)
    → g.made_by ≡ of_udp
    → g.knocks ≡ map (udp_port g.ends) seen
    → All (λ p. p ≢ q) seen
    → d.groups ≡ g ∷ []
    → (on_knock now (udp_port g.ends q) d).groups
      ≡ scanning now (g.count + 1) (seen ++ (q ∷ [])) g ∷ []
unfolding on_knock add_item find_same update
one_group now q g seen d udp known fresh only =
    let knock : Knock = udp_port g.ends q in
    let new : KnockGroup = new_group d.next_ident now knock in
    ap (λ (gs : List KnockGroup). updated (add_item same_group new gs)) only
    ∙ ap updated (add_first same_group new g [] (joins d.next_ident now q g udp))
    ∙ rw ((==_iff g.ident g.ident).1 refl)
        (ap (λ (h : KnockGroup). h ∷ []) (one_more now q g seen udp known fresh))
  where
    updated : List KnockGroup × KnockGroup → List KnockGroup
    updated (gs, k) = update k.ident (touched now (udp_port g.ends q)) gs
