-- ===== src/Media/Feedback.antt =====
-- The `configure` methods of src/configs/media_config.rs that register feedback and header extensions.
use sfu.Prelude.{
  ◌≡◌, refl, ap, ◌∙◌, ltb, beq_refl, some, inl, inr, Bool-cases, true, false, none, List, [], ◌∷◌,
  ◌++◌, ◌<◌, arith, find, Text, codes, length, ◌==◌, list_eq, nat_eq,
}
use sfu.Prelude.Results.{ok}
use sfu.Prelude.Actions.{Action, ◌>>◌, modify, bind_ok}
use sfu.Crates.{Crates}
use sfu.Codec.{CodecType}
use sfu.Media.{
  MediaConfig, HeaderExtension, register_rtcp_feedback, register_header_extension, mark, mark_first,
  direction_beq,
}

abbrev type_rtcp_fb_transport_cc : Text
type_rtcp_fb_transport_cc = codes "transport-cc"

unfoldable pub configure_nack : MediaConfig → MediaConfig
unfolding register_rtcp_feedback
configure_nack self =
    register_rtcp_feedback
      (register_rtcp_feedback self (record { typ = codes "nack"; parameter = [] }) CodecType.video)
      (record { typ = codes "nack"; parameter = codes "pli" }) CodecType.video

abbrev fresh : Text → HeaderExtension
fresh uri = record { uri = uri; is_audio = false; is_video = true; allowed_direction = none }

find_appended :
    (uri : Text) (e : HeaderExtension) (es : List HeaderExtension)
    → find (λ x. x.uri == uri) es ≡ none
    → e.uri == uri ≡ true
    → find (λ x. x.uri == uri) (es ++ e ∷ []) ≡ some e
find_appended uri e [] h k = ground arith
find_appended uri e (x ∷ es) h k = elim (Bool-cases (x.uri == uri)) [
  | inl t ↦ absurd (let h' = rw t at h in ground arith)
  | inr t ↦ rw t (find_appended uri e es (rw t at h) k)
]

mark_appended :
    (uri : Text) (typ : CodecType) (e : HeaderExtension) (es : List HeaderExtension)
    → find (λ x. x.uri == uri) es ≡ none
    → e.uri == uri ≡ true
    → mark_first typ uri (es ++ e ∷ []) ≡ es ++ mark typ uri e ∷ []
unfolding mark_first
mark_appended uri typ e [] h k = ground arith
mark_appended uri typ e (x ∷ es) h k = elim (Bool-cases (x.uri == uri)) [
  | inl t ↦ absurd (let h' = rw t at h in ground arith)
  | inr t ↦ rw (mark_first, t) (ap (λ l. x ∷ l) (mark_appended uri typ e es (rw t at h) k))
]

registers_new :
    (self : MediaConfig) (uri : Text)
    → find (λ x. x.uri == uri) self.header_extensions ≡ none
    → length self.header_extensions < 16
    → register_header_extension self uri CodecType.video none
      ≡ (ok tt, record self { header_extensions = self.header_extensions ++ fresh uri ∷ [] })
unfolding register_header_extension mark
registers_new self uri h n =
    let small : ltb 15 (length self.header_extensions) ≡ false = ground arith in
    rw (register_header_extension, h, small) refl

registers_again :
    (self : MediaConfig) (uri : Text) (es : List HeaderExtension)
    → find (λ x. x.uri == uri) es ≡ none
    → register_header_extension
        (record self { header_extensions = es ++ fresh uri ∷ [] })
        uri
        CodecType.audio
        none
      ≡ (
        ok tt,
        record self { header_extensions = es ++ record (fresh uri) { is_audio = true } ∷ [] },
      )
unfolding register_header_extension direction_beq mark
registers_again self uri es h =
    rw
      (
        register_header_extension,
        find_appended uri (fresh uri) es h (beq_refl uri),
        mark_appended uri CodecType.audio (fresh uri) es h (beq_refl uri),
      )
      refl

module _ (c : Crates) where
  abbrev transport_feedback : CodecType → Action MediaConfig (Unit {0})
  transport_feedback typ = modify λ self.
      register_rtcp_feedback self (record { typ = type_rtcp_fb_transport_cc; parameter = [] }) typ

  abbrev transport_extension : CodecType → Action MediaConfig (Unit {0})
  transport_extension typ self = register_header_extension self c.transport_cc_uri typ none

  unfoldable pub configure_twcc : Action MediaConfig (Unit {0})
  unfolding register_rtcp_feedback register_header_extension
  configure_twcc =
      transport_feedback CodecType.video
      >> transport_extension CodecType.video
      >> transport_feedback CodecType.audio
      >> transport_extension CodecType.audio

  unfoldable pub configure_twcc_sender_only : Action MediaConfig (Unit {0})
  unfolding register_header_extension
  configure_twcc_sender_only =
      transport_extension CodecType.video >> transport_extension CodecType.audio

  -- The code of this method is that of `configure_twcc`.
  unfoldable pub configure_twcc_receiver_only : Action MediaConfig (Unit {0})
  unfolding register_rtcp_feedback register_header_extension
  configure_twcc_receiver_only =
      transport_feedback CodecType.video
      >> transport_extension CodecType.video
      >> transport_feedback CodecType.audio
      >> transport_extension CodecType.audio

  -- Where the extension is not registered yet and fewer than sixteen are, it is registered once, for
  -- both kinds and all directions, and nothing else changes.
  configure_twcc_sender_only_lem :
      (self : MediaConfig)
      → find (λ e. e.uri == c.transport_cc_uri) self.header_extensions ≡ none
      → length self.header_extensions < 16
      → configure_twcc_sender_only self ≡ (
        ok tt,
        record self {
          header_extensions =
              self.header_extensions
              ++ record {
                uri = c.transport_cc_uri;
                is_audio = true;
                is_video = true;
                allowed_direction = none;
              }
                ∷ [];
        },
      )
  unfolding configure_twcc_sender_only register_header_extension
  configure_twcc_sender_only_lem self h n =
      bind_ok (transport_extension CodecType.video) (λ _. transport_extension CodecType.audio) self
        _ tt (registers_new self c.transport_cc_uri h n)
      ∙ registers_again self c.transport_cc_uri self.header_extensions h
