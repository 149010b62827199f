-- ===== src/Struct/Join.antt =====
-- A format in two parts: the bytes of the first part stand in front of those of the second.
use sentinel_hft.Prelude.{
  ℕ, ◌*◌, ◌≡◌, refl, ◌∙◌, List, [], ◌∷◌, ◌++◌, replicate, lt→ltb, append_assoc, arith,
}
use sentinel_hft.Prelude.Result.{ok}
use sentinel_hft.Struct.{Code, uint, sint, chars, pad, Values, to_le, to_twos, fit, magnitude, pack}
use sentinel_hft.Struct.RoundTrip.{pack-uint, pack-sint, pack-chars, pack-pad}

abbrev pub join : (f g : List Code) → Values f → Values g → Values (f ++ g)
join [] g vs ws = ws
join (uint w ∷ f) g (v, vs) ws = (v, join f g vs ws)
join (sint w ∷ f) g (v, vs) ws = (v, join f g vs ws)
join (chars n ∷ f) g (v, vs) ws = (v, join f g vs ws)
join (pad n ∷ f) g vs ws = join f g vs ws

pub pack-join :
    (f g : List Code) (vs : Values f) (ws : Values g) (a b : List ℕ)
    → pack f vs ≡ ok a
    → pack g ws ≡ ok b
    → pack (f ++ g) (join f g vs ws) ≡ ok (a ++ b)
unfolding pack
pack-join [] g vs ws a b p q = let e : [] ≡ a = ground arith in rw (← e) q
pack-join (uint w ∷ f) g (v, vs) ws a b p q =
    let (r, pr, lt, e) = pack-uint w f v vs a p in
    let whole = pack-join f g vs ws r b pr q in rw (whole, e, lt→ltb v _ lt, append_assoc)
pack-join (sint w ∷ f) g (v, vs) ws a b p q =
    let (r, pr, lt, e) = pack-sint w f v vs a p in
    let whole = pack-join f g vs ws r b pr q in
    rw (whole, e, lt→ltb (2 * magnitude v) _ lt, append_assoc)
pack-join (chars n ∷ f) g (v, vs) ws a b p q =
    let (r, pr, e) = pack-chars n f v vs a p in
    let whole = pack-join f g vs ws r b pr q in rw (whole, e, append_assoc)
pack-join (pad n ∷ f) g vs ws a b p q =
    let (r, pr, e) = pack-pad n f vs a p in
    let whole = pack-join f g vs ws r b pr q in rw (whole, e, append_assoc)

-- The parts of what was packed.
pub record Parts (f g : List Code) (vs : Values f) (ws : Values g) (bs : List ℕ) : Type 0 where
  pub front : List ℕ
  pub back : List ℕ
  pub packed_front : pack f vs ≡ ok front
  pub packed_back : pack g ws ≡ ok back
  pub joined : bs ≡ front ++ back

pub pack-join-Parts :
    (f g : List Code) (vs : Values f) (ws : Values g) (bs : List ℕ)
    → pack (f ++ g) (join f g vs ws) ≡ ok bs
    → Parts f g vs ws bs
unfolding pack
pack-join-Parts [] g vs ws bs h = record {
  front = [];
  back = bs;
  packed_front = refl;
  packed_back = h;
  joined = refl;
}
pack-join-Parts (uint w ∷ f) g (v, vs) ws bs h =
    let (r, p, lt, e) = pack-uint w (f ++ g) v (join f g vs ws) bs h in
    let t = pack-join-Parts f g vs ws r p in
    record {
      front = to_le w v ++ t.front;
      back = t.back;
      packed_front = rw (t.packed_front, lt→ltb v _ lt);
      packed_back = t.packed_back;
      joined = e ∙ rw (t.joined, append_assoc);
    }
pack-join-Parts (sint w ∷ f) g (v, vs) ws bs h =
    let (r, p, lt, e) = pack-sint w (f ++ g) v (join f g vs ws) bs h in
    let t = pack-join-Parts f g vs ws r p in
    record {
      front = to_le w (to_twos w v) ++ t.front;
      back = t.back;
      packed_front = rw (t.packed_front, lt→ltb (2 * magnitude v) _ lt);
      packed_back = t.packed_back;
      joined = e ∙ rw (t.joined, append_assoc);
    }
pack-join-Parts (chars n ∷ f) g (v, vs) ws bs h =
    let (r, p, e) = pack-chars n (f ++ g) v (join f g vs ws) bs h in
    let t = pack-join-Parts f g vs ws r p in
    record {
      front = fit n v ++ t.front;
      back = t.back;
      packed_front = rw t.packed_front;
      packed_back = t.packed_back;
      joined = e ∙ rw (t.joined, append_assoc);
    }
pack-join-Parts (pad n ∷ f) g vs ws bs h =
    let (r, p, e) = pack-pad n (f ++ g) (join f g vs ws) bs h in
    let t = pack-join-Parts f g vs ws r p in
    record {
      front = replicate n 0 ++ t.front;
      back = t.back;
      packed_front = rw t.packed_front;
      packed_back = t.packed_back;
      joined = e ∙ rw (t.joined, append_assoc);
    }
