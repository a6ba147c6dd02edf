-- ===== src/Media/Registered.antt =====
-- What the default codecs of src/configs/media_config.rs leave in a configuration.
use sfu.Prelude.{
  false, ◌≡◌, refl, true, List, [], ◌∷◌, arith, In, In-append_left, ◌++◌, ◌⊎◌, any, Bool-cases, inl,
  inr, ap, ◌∙◌,
}
use sfu.Prelude.Results.{ok, ◌>>=◌}
use sfu.Codec.{CodecType, CodecParameters}
use sfu.Media.{MediaConfig, add_codec, register_codec}
use sfu.Media.Codecs.{
  AllDifferent, same_codec, add_codec-AllDifferent, add_codec_there, add_codec_new, any-append,
}
use sfu.Media.Defaults.{
  register_all, register_default_codecs, default_audio_codecs, default_video_codecs,
}

-- Every codec of the first list stands in the second, by its type and its payload type.
abbrev AllIn : List CodecParameters → List CodecParameters → Type 0
AllIn [] cs = Unit
AllIn (d ∷ ds) cs = (any (same_codec d) cs ≡ true) × AllIn ds cs

abbrev add_all : List CodecParameters → List CodecParameters → List CodecParameters
add_all cs [] = cs
add_all cs (d ∷ ds) = add_all (add_codec cs d) ds

register_audio :
    (ds : List CodecParameters) (self : MediaConfig)
    → register_all ds CodecType.audio self
      ≡ ok (record self { audio_codecs = add_all self.audio_codecs ds })
unfolding register_all register_codec
register_audio [] self = refl
register_audio (d ∷ ds) self =
    register_audio ds (record self { audio_codecs = add_codec self.audio_codecs d })

register_video :
    (ds : List CodecParameters) (self : MediaConfig)
    → register_all ds CodecType.video self
      ≡ ok (record self { video_codecs = add_all self.video_codecs ds })
unfolding register_all register_codec
register_video [] self = refl
register_video (d ∷ ds) self =
    register_video ds (record self { video_codecs = add_codec self.video_codecs d })

add_codec_keeps :
    (e d : CodecParameters) (cs : List CodecParameters)
    → any (same_codec e) cs ≡ true
    → any (same_codec e) (add_codec cs d) ≡ true
unfolding add_codec
add_codec_keeps e d cs h = elim (Bool-cases (any (same_codec d) cs)) [
  | inl k ↦ rw (add_codec_there cs d k) h
  | inr k ↦ rw (add_codec, k) (ground (arith, any-append (same_codec e) cs (d ∷ [])))
]

add_all_keeps :
    (e : CodecParameters) (ds cs : List CodecParameters)
    → any (same_codec e) cs ≡ true
    → any (same_codec e) (add_all cs ds) ≡ true
add_all_keeps e [] cs h = h
add_all_keeps e (d ∷ ds) cs h = add_all_keeps e ds (add_codec cs d) (add_codec_keeps e d cs h)

add_all-AllIn :
    (ds cs : List CodecParameters)
    → AllDifferent cs
    → AllDifferent (add_all cs ds) × AllIn ds (add_all cs ds)
add_all-AllIn [] cs h = (h, tt)
add_all-AllIn (d ∷ ds) cs h =
    let (different, there, _) = add_codec-AllDifferent cs d h in
    let (different', rest) = add_all-AllIn ds (add_codec cs d) different in
    (different', (add_all_keeps d ds (add_codec cs d) there, rest))

add_all_again : (ds cs : List CodecParameters) → AllIn ds cs → add_all cs ds ≡ cs
add_all_again [] cs h = refl
add_all_again (d ∷ ds) cs h = rw (add_codec_there cs d h.0) (add_all_again ds cs h.1)

registers :
    (self : MediaConfig)
    → register_default_codecs self
      ≡ ok (record self {
        audio_codecs = add_all self.audio_codecs default_audio_codecs;
        video_codecs = add_all self.video_codecs default_video_codecs;
      })
unfolding register_default_codecs
registers self =
    ap (λ r. r >>= λ s. register_all default_video_codecs CodecType.video s)
      (register_audio default_audio_codecs self)
    ∙ register_video default_video_codecs
        (record self { audio_codecs = add_all self.audio_codecs default_audio_codecs })

-- What was in the list stays, whole.
add_all-keeps_In :
    (x : CodecParameters) (ds cs : List CodecParameters) → In x cs → In x (add_all cs ds)
unfolding add_codec
add_all-keeps_In x [] cs i = i
add_all-keeps_In x (d ∷ ds) cs i = elim (Bool-cases (any (same_codec d) cs)) [
  | inl k ↦ rw (add_codec_there cs d k) (add_all-keeps_In x ds cs i)
  | inr k ↦
      rw (add_codec_new cs d k)
        (add_all-keeps_In x ds (cs ++ d ∷ []) (In-append_left x cs (d ∷ []) i))
]

In-last : (d : CodecParameters) (cs : List CodecParameters) → In d (cs ++ d ∷ [])
In-last d [] = inl refl
In-last d (c ∷ cs) = inr (In-last d cs)

-- Every codec of the list is the codec or another one than it.
Apart : CodecParameters → List CodecParameters → Type 0
Apart d [] = Unit
Apart d (x ∷ xs) = ((same_codec x d ≡ false) ⊎ (x ≡ d)) × Apart d xs

-- Codecs of the list with one type and payload type are equal.
Coherent : List CodecParameters → Type 0
Coherent [] = Unit
Coherent (d ∷ ds) = Apart d ds × Coherent ds

other_or_same :
    (d e : CodecParameters) (ds : List CodecParameters)
    → Apart d ds
    → In e ds
    → (same_codec e d ≡ false) ⊎ (e ≡ d)
unfolding Apart
other_or_same d e [] h i = elim i [ ]
other_or_same d e (x ∷ ds) h (inl q) = rw q h.0
other_or_same d e (x ∷ ds) h (inr i) = other_or_same d e ds h.1 i

-- Each codec of a coherent list is added as it is, unless its type and payload type were taken before.
add_all-In :
    (e : CodecParameters) (ds cs : List CodecParameters)
    → Coherent ds
    → In e ds
    → In e (add_all cs ds) ⊎ (any (same_codec e) cs ≡ true)
unfolding add_codec Coherent
add_all-In e [] cs n i = elim i [ ]
add_all-In e (d ∷ ds) cs n (inl q) = elim (Bool-cases (any (same_codec d) cs)) [
  | inl k ↦ inr (rw q k)
  | inr k ↦ inl (rw (add_codec_new cs d k, q) (add_all-keeps_In d ds (cs ++ d ∷ []) (In-last d cs)))
]
add_all-In e (d ∷ ds) cs n (inr i) = elim (Bool-cases (any (same_codec d) cs)) [
  | inl k ↦ rw (add_codec_there cs d k) (add_all-In e ds cs n.1 i)
  | inr k ↦ rw (add_codec_new cs d k) (elim (add_all-In e ds (cs ++ d ∷ []) n.1 i) [
    | inl there ↦ inl there
    | inr taken ↦ elim (other_or_same d e ds n.0 i) [
      | inl apart ↦ inr (ground (arith, any-append (same_codec e) cs (d ∷ [])))
      | inr q ↦ inl (rw q (add_all-keeps_In d ds (cs ++ d ∷ []) (In-last d cs)))
    ]
  ])
]

-- Each codec of the first list stands in the last one, whole, or the second list had one with its type and
-- payload type.
abbrev pub Registered : List CodecParameters → List CodecParameters → List CodecParameters → Type 0
Registered [] before after = Unit
Registered (d ∷ ds) before after =
    (In d after ⊎ (any (same_codec d) before ≡ true)) × Registered ds before after

-- Each codec of the first list stands in the second, whole.
abbrev pub Within : List CodecParameters → List CodecParameters → Type 0
Within [] after = Unit
Within (c ∷ cs) after = In c after × Within cs after

each_taken :
    (before after : List CodecParameters) (ds : List CodecParameters)
    → ((d : CodecParameters) → In d ds → In d after ⊎ (any (same_codec d) before ≡ true))
    → Registered ds before after
each_taken before after [] f = tt
each_taken before after (d ∷ ds) f =
    (f d (inl refl), each_taken before after ds (λ e i. f e (inr i)))

each_kept :
    (after cs : List CodecParameters)
    → ((c : CodecParameters) → In c cs → In c after)
    → Within cs after
each_kept after [] f = tt
each_kept after (c ∷ cs) f = (f c (inl refl), each_kept after cs (λ e i. f e (inr i)))

none_same :
    (d : CodecParameters) (ds : List CodecParameters)
    → any (λ x. same_codec x d) ds ≡ false
    → Apart d ds
unfolding Apart
none_same d [] h = tt
none_same d (x ∷ ds) h = (inl (ground arith), none_same d ds (ground arith))

other_before :
    (d x : CodecParameters) (ds : List CodecParameters)
    → same_codec x d ≡ false
    → Apart d ds
    → Apart d (x ∷ ds)
unfolding Apart
other_before d x ds h k = (inl h, k)

same_before : (d : CodecParameters) (ds : List CodecParameters) → Apart d ds → Apart d (d ∷ ds)
unfolding Apart
same_before d ds k = (inr refl, k)

audio-Coherent : Coherent default_audio_codecs
unfolding default_audio_codecs Coherent
audio-Coherent =
    (none_same _ _ refl, (none_same _ _ refl, (none_same _ _ refl, (none_same _ _ refl, tt))))

-- The payload type 127 is there twice, with the same parameters.
video-Coherent : Coherent default_video_codecs
unfolding default_video_codecs Coherent
video-Coherent = (
  none_same _ _ refl,
  (
    none_same _ _ refl,
    (
      none_same _ _ refl,
      (
        none_same _ _ refl,
        (
          other_before _ _ _ refl (other_before _ _ _ refl (same_before _ _ (none_same _ _ refl))),
          (
            none_same _ _ refl,
            (
              none_same _ _ refl,
              (
                none_same _ _ refl,
                (none_same _ _ refl, (none_same _ _ refl, (none_same _ _ refl, tt))),
              ),
            ),
          ),
        ),
      ),
    ),
  ),
)

pair_path : {A : Type 0} {a b : A} {c d : A} → a ≡ b → c ≡ d → ◌≡◌ {A = A × A} (a, c) (b, d)
pair_path p q = rw (p, q) refl

-- The default codecs are registered in any configuration: its lists stay free of repetitions and
-- keep, whole, every codec that they had; every default codec stands, whole, in the list of its kind, unless a
-- codec with its type and payload type was there before; and to register them again changes nothing.
pub register_default_codecs-Registered :
    (self : MediaConfig)
    → AllDifferent self.audio_codecs
    → AllDifferent self.video_codecs
    → (self' : MediaConfig) × (register_default_codecs self ≡ ok self')
      × AllDifferent self'.audio_codecs
      × AllDifferent self'.video_codecs
      × Within self.audio_codecs self'.audio_codecs
      × Within self.video_codecs self'.video_codecs
      × Registered default_audio_codecs self.audio_codecs self'.audio_codecs
      × Registered default_video_codecs self.video_codecs self'.video_codecs
      × (register_default_codecs self' ≡ ok self')
unfolding register_default_codecs
register_default_codecs-Registered self a v =
    let (a', in_audio) = add_all-AllIn default_audio_codecs self.audio_codecs a in
    let (v', in_video) = add_all-AllIn default_video_codecs self.video_codecs v in
    let audio = add_all self.audio_codecs default_audio_codecs in
    let video = add_all self.video_codecs default_video_codecs in
    let after : MediaConfig = record self { audio_codecs = audio; video_codecs = video } in
    (
      after,
      registers self,
      a',
      v',
      each_kept audio self.audio_codecs
          (λ c. add_all-keeps_In c default_audio_codecs self.audio_codecs),
      each_kept video self.video_codecs
          (λ c. add_all-keeps_In c default_video_codecs self.video_codecs),
      each_taken self.audio_codecs audio default_audio_codecs
          (λ d. add_all-In d default_audio_codecs self.audio_codecs audio-Coherent),
      each_taken self.video_codecs video default_video_codecs
          (λ d. add_all-In d default_video_codecs self.video_codecs video-Coherent),
      registers after
          ∙ ap
              (λ (x : List CodecParameters × List CodecParameters).
                ok (record after { audio_codecs = x.0; video_codecs = x.1 }))
              (pair_path (add_all_again default_audio_codecs audio in_audio)
                (add_all_again default_video_codecs video in_video)),
    )
