-- ===== src/Tokens/Lifetimes/TimeSpan/Spans.antt =====
-- Which time spans ParseTimeSpan reads, and as what.
use entra_emulator.Tokens.Lifetimes.TimeSpan.Pieces.{
  count_char-Without, not_empty, split_at-Without, append-Without, count_char-append, cut_at-append,
  parse_int-digits, split_at-append, Without, cut_at-Without, digits-Without,
}
use entra_emulator.Tokens.Lifetimes.TimeSpan.{
  total, clock_parts, spanned, timed, leading_days, positive_total, count_char, cut_at,
  parse_time_span, split_at,
}
use entra_emulator.Text.Integers.{pos, digits, parse_int}
use entra_emulator.Text.{◌<>◌}
use entra_emulator.Prelude.{
  ℕ, ◌+◌, ◌*◌, ◌^◌, ◌<◌, String, ◌≡◌, refl, sym, ap, ◌∙◌, Option, none, some, [], ◌∷◌, arith,
}

module _ (dt ht mt st : String) (d h m s : ℕ) where
  abbrev clock_text : String
  clock_text = ht <> (":" <> (mt <> (":" <> st)))

  abbrev span_text : String
  span_text = dt <> ("." <> clock_text)

  abbrev seconds : ℕ
  seconds = d * 86400 + h * 3600 + m * 60 + s

  split_clock :
      Without b':' ht
      → Without b':' mt
      → Without b':' st
      → split_at b':' clock_text ≡ ht ∷ (mt ∷ (st ∷ []))
  split_clock a b c =
      split_at-append b':' _ ht (mt <> (":" <> st)) refl a
      ∙ ap (λ l. ht ∷ l)
          (split_at-append b':' _ mt st refl b ∙ ap (λ l. mt ∷ l) (split_at-Without b':' st c))

  colons :
      Without b':' dt
      → Without b':' ht
      → Without b':' mt
      → Without b':' st
      → (count_char b':' clock_text ≡ 2) × (count_char b':' span_text ≡ 2)
  unfolding count_char
  colons z a b c =
      let n0 = count_char-append b':' dt ("." <> clock_text) in
      let n1 = count_char-append b':' "." clock_text in
      let n2 = count_char-append b':' ht (":" <> (mt <> (":" <> st))) in
      let n3 = count_char-append b':' ":" (mt <> (":" <> st)) in
      let n4 = count_char-append b':' mt (":" <> st) in
      let n5 = count_char-append b':' ":" st in
      let dot : count_char b':' "." ≡ 0 = refl in
      let colon : count_char b':' ":" ≡ 1 = refl in
      let z0 = count_char-Without b':' dt z in
      let a0 = count_char-Without b':' ht a in
      let b0 = count_char-Without b':' mt b in
      let c0 = count_char-Without b':' st c in
      let two : count_char b':' clock_text ≡ 2 = omega (arith, n2, n3, n4, n5, colon, a0, b0, c0) in
      (two, omega (arith, n0, n1, two, dot, z0))

  total-seconds : 0 < seconds → seconds < 2 ^ 63 → total (pos d) (h, m, s) ≡ seconds
  total-seconds p q = omega (arith, p, q)

  read_total : 0 < seconds → seconds < 2 ^ 63 → positive_total seconds ≡ some seconds
  read_total p q = ground arith

  days_read :
      count_char b':' span_text ≡ 2
      → count_char b':' dt ≡ 0
      → cut_at b'.' span_text ≡ some (dt, clock_text)
      → parse_int dt ≡ some (pos d)
      → leading_days span_text ≡ some (pos d, clock_text)
  unfolding leading_days
  days_read two none_in cut days = rw (cut, two, none_in, days, leading_days) refl

  clock_read :
      split_at b':' clock_text ≡ ht ∷ (mt ∷ (st ∷ []))
      → parse_int ht ≡ some (pos h)
      → parse_int mt ≡ some (pos m)
      → parse_int st ≡ some (pos s)
      → clock_parts (split_at b':' clock_text) ≡ some (h, m, s)
  unfolding clock_parts
  clock_read split a b c = ap clock_parts split ∙ rw (a, b, c) refl

  dotted_span :
      digits dt ≡ some d
      → digits ht ≡ some h
      → digits mt ≡ some m
      → digits st ≡ some s
      → 0 < seconds
      → seconds < 2 ^ 63
      → parse_time_span span_text ≡ some seconds
  unfolding parse_time_span
  dotted_span ed eh em es some_time fits =
      let zd = digits-Without b':' d dt refl ed in
      let zh = digits-Without b':' h ht refl eh in
      let zm = digits-Without b':' m mt refl em in
      let zs = digits-Without b':' s st refl es in
      let (_, two) = colons zd zh zm zs in
      let cut : cut_at b'.' span_text ≡ some (dt, clock_text) =
        cut_at-append b'.' _ dt clock_text refl (digits-Without b'.' d dt refl ed) in
      let days =
        days_read two (count_char-Without b':' dt zd) cut
          (parse_int-digits dt d ed (omega (arith, fits))) in
      let clock =
        clock_read (split_clock zh zm zs) (parse_int-digits ht h eh (omega (arith, fits)))
          (parse_int-digits mt m em (omega (arith, fits)))
          (parse_int-digits st s es (omega (arith, fits))) in
      rw (not_empty span_text two) (
        ap spanned days
        ∙ (ap (timed (pos d)) clock
            ∙ (ap positive_total (total-seconds some_time fits) ∙ read_total some_time fits)))

module _ (ht mt st : String) (h m s : ℕ) where
  abbrev clock : String
  clock = clock_text "" ht mt st 0 h m s

  abbrev clock_seconds : ℕ
  clock_seconds = 0 * 86400 + h * 3600 + m * 60 + s

  no_days :
      digits ht ≡ some h
      → digits mt ≡ some m
      → digits st ≡ some s
      → leading_days clock ≡ some (pos 0, clock)
  unfolding leading_days
  no_days eh em es =
      let dotless = cut_at-Without b'.' clock (
        append-Without b'.' ht _ (digits-Without b'.' h ht refl eh) (
          append-Without b'.' ":" _ (refl, tt)
            (append-Without b'.' mt _ (digits-Without b'.' m mt refl em)
              (append-Without b'.' ":" st (refl, tt) (digits-Without b'.' s st refl es))))) in
      rw (dotless, leading_days) refl

  clock_span :
      digits ht ≡ some h
      → digits mt ≡ some m
      → digits st ≡ some s
      → 0 < clock_seconds
      → clock_seconds < 2 ^ 63
      → parse_time_span clock ≡ some clock_seconds
  unfolding parse_time_span
  clock_span eh em es some_time fits =
      let zh = digits-Without b':' h ht refl eh in
      let zm = digits-Without b':' m mt refl em in
      let zs = digits-Without b':' s st refl es in
      let (two, _) = colons "" ht mt st 0 h m s tt zh zm zs in
      let parts =
        clock_read "" ht mt st 0 h m s (split_clock "" ht mt st 0 h m s zh zm zs)
          (parse_int-digits ht h eh (omega (arith, fits)))
          (parse_int-digits mt m em (omega (arith, fits)))
          (parse_int-digits st s es (omega (arith, fits))) in
      rw (not_empty clock two) (
        ap spanned (no_days eh em es)
        ∙ (ap (timed (pos 0)) parts
            ∙ (ap positive_total (total-seconds "" ht mt st 0 h m s some_time fits)
                ∙ read_total "" ht mt st 0 h m s some_time fits)))

-- hh:mm:ss, or d.hh:mm:ss
abbrev pub written : (days : Option String) → (hours minutes seconds : String) → String
written none ht mt st = ht <> (":" <> (mt <> (":" <> st)))
written (some dt) ht mt st = dt <> ("." <> (ht <> (":" <> (mt <> (":" <> st)))))

-- No days are 0 days.
abbrev pub IsDays : Option String → ℕ → Type 0
IsDays none d = d ≡ 0
IsDays (some dt) d = digits dt ≡ some d

-- A time span of hours, minutes and seconds in decimal digits, joined by colons, with or without
-- days and a dot before them, is read as its seconds, where these are at least one and fit in a
-- signed 64-bit integer; hours, minutes and seconds may be any numbers.
pub parse_time_span_complete :
    (days : Option String) (ht mt st : String) (d h m s : ℕ)
    → IsDays days d
    → digits ht ≡ some h
    → digits mt ≡ some m
    → digits st ≡ some s
    → 0 < d * 86400 + h * 3600 + m * 60 + s
    → d * 86400 + h * 3600 + m * 60 + s < 2 ^ 63
    → parse_time_span (written days ht mt st) ≡ some (d * 86400 + h * 3600 + m * 60 + s)
parse_time_span_complete none ht mt st d h m s ed eh em es some_time fits =
    let same : d * 86400 + h * 3600 + m * 60 + s ≡ 0 * 86400 + h * 3600 + m * 60 + s =
      omega (arith, ed) in
    clock_span ht mt st h m s eh em es (omega (arith, some_time, same)) (omega (arith, fits, same))
    ∙ ap some (sym same)
parse_time_span_complete (some dt) ht mt st d h m s ed eh em es some_time fits =
    dotted_span dt ht mt st d h m s ed eh em es some_time fits
