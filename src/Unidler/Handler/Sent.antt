-- ===== src/Unidler/Handler/Sent.antt =====
-- What the client gets.
use aergia_controller.Base.{
  String, ◌≡◌, refl, true, false, none, some, [], ℤ, lookup, lookup-insert, insert, ◌==◌, StringMap,
  Bool-cases, inl, inr, arith,
}
use aergia_controller.Stdlib.{Stdlib}
use aergia_controller.Kube.{Namespace, Cluster}
use aergia_controller.Kube.Lawful.{IsLawful}
use aergia_controller.World.{World, returned, ◌>>=◌, read, count, for_each}
use aergia_controller.World.Keeps.{IsPreorder, Keeps, Keeps-modify}
use aergia_controller.Unidler.Config.{Unidler, Request}
use aergia_controller.Unidler.Requests.{header, response_code, response_format}
use aergia_controller.Unidler.Response.{
  Body, Writer, new_writer, Exchange, is_status, is_informational, append_body, set_header,
  write_header, write, in_world,
}
use aergia_controller.Unidler.Handler.{
  start_unidle, debug_headers, copy_header, write_head, ingress_handler,
}
use aergia_controller.Unidler.Handler.Walk.{Within, IsKept}
use aergia_controller.Unidler.Handler.Whole.{allow_verified-Keeps, respond-Keeps}

module _ (K : Cluster) where
  -- What has been sent stays sent.
  record SentKept (x y : Exchange K) : Type 0 where
    at : (s : ℤ × StringMap) → x.writer.sent ≡ some s → y.writer.sent ≡ some s

  SentKept-IsPreorder : IsPreorder SentKept
  SentKept-IsPreorder = record {
    reflexive = λ x. record { at = λ s e. e };
    transitive = λ x y z p q. record { at = λ s e. q.at s (p.at s e) };
  }

  append_body-sent :
      (b : Body) (w : Writer) (s : ℤ × StringMap)
      → w.sent ≡ some s
      → (append_body b w).sent ≡ some s
  append_body-sent b w s e = ground arith

  module _ (L : Stdlib) (h : Unidler) where
    SentKept-IsKept : IsKept K L h SentKept
    SentKept-IsKept = record {
      order = SentKept-IsPreorder;
      header = λ k v. unfold set_header in Keeps-modify _ (λ x. record { at = λ s e. e });
      body = λ b.
          unfold write in
          Keeps-modify _ (λ x. record { at = λ s e. append_body-sent b x.writer s e });
      counted = λ f. unfold count in Keeps-modify _ (λ w r. record { at = λ s e. e });
    }

    start-SentKept :
        (name : String) (ns : Namespace) → Keeps (Within K SentKept) (start_unidle K L h name ns)
    unfolding start_unidle
    start-SentKept name ns = record { at = λ w r. record { at = λ s e. e } }

    -- The headers that go with the status.
    abbrev pub IsHead : Request → StringMap → Type 0
    IsHead r hs =
        (lookup "X-Aergia" hs ≡ some "true")
        × (lookup "Content-Type" hs ≡ some (response_format r))
        × (lookup "Cache-Control" hs ≡ some "private,no-store")
        × (lookup "X-Aergia-Allowed" hs ≡ none)
        × (lookup "X-Aergia-Denied" hs ≡ none)
        × (lookup "X-Aergia-Verification-Required" hs ≡ none)
        × (lookup "X-Aergia-No-Namespace" hs ≡ none)

    -- The headers that are set before the status, onto others.
    abbrev head_headers : Request → StringMap → StringMap
    head_headers r hs =
        insert "Cache-Control" "private,no-store"
          (insert "X-Aergia" "true" (insert "Content-Type" (response_format r) hs))

    start_writer : World K → StringMap → Exchange K
    start_writer w hs = record { world = w; writer = record new_writer { headers = hs } }

    IsHead-insert :
        (r : Request) (hs : StringMap)
        → lookup "X-Aergia-Allowed" hs ≡ none
        → lookup "X-Aergia-Denied" hs ≡ none
        → lookup "X-Aergia-Verification-Required" hs ≡ none
        → lookup "X-Aergia-No-Namespace" hs ≡ none
        → IsHead r (head_headers r hs)
    unfolding ◌==◌
    IsHead-insert r hs a b c d = (
      simp lookup-insert,
      simp lookup-insert,
      simp lookup-insert,
      simp (lookup-insert, a),
      simp (lookup-insert, b),
      simp (lookup-insert, c),
      simp (lookup-insert, d),
    )

    write_status :
        (code : ℤ) (w : World K) (hs : StringMap)
        → is_status code ≡ true
        → is_informational code ≡ false
        → write_header K code (record { world = w; writer = record new_writer { headers = hs } })
          ≡ (
            returned tt,
            record {
              world = w;
              writer = record { headers = hs; sent = some (code, hs); body = [] };
            },
          )
    unfolding write_header
    write_status code w hs e f = rw (e, f)

    -- The headers that are copied for debugging.
    abbrev pub debug_map : Request → StringMap
    debug_map r = insert "X-Request-ID" (header r "X-Request-ID") (
        insert "X-Service-Port" (header r "X-Service-Port") (
          insert "X-Service-Name" (header r "X-Service-Name") (
            insert "X-Ingress-Name" (header r "X-Ingress-Name") (
              insert "X-Namespace" (header r "X-Namespace") (
                insert "X-Original-URI" (header r "X-Original-URI") (
                  insert "Content-Type" (header r "Content-Type") (
                    insert "X-Code" (header r "X-Code")
                      (insert "X-Format" (header r "X-Format") []))))))))

    debug_map_lacks :
        (r : Request)
        → (lookup "X-Aergia-Allowed" (debug_map r) ≡ none)
          × (lookup "X-Aergia-Denied" (debug_map r) ≡ none)
          × (lookup "X-Aergia-Verification-Required" (debug_map r) ≡ none)
          × (lookup "X-Aergia-No-Namespace" (debug_map r) ≡ none)
    unfolding ◌==◌
    debug_map_lacks r = (
      simp lookup-insert (unfold lookup in refl),
      simp lookup-insert (unfold lookup in refl),
      simp lookup-insert (unfold lookup in refl),
      simp lookup-insert (unfold lookup in refl),
    )

    pub debug_headers_lem :
        (r : Request) (w : World K)
        → debug_headers K L h r (record { world = w; writer = new_writer }) ≡ (
          returned tt,
          record { world = w; writer = record new_writer { headers = debug_map r } },
        )
    unfolding debug_headers for_each ◌>>=◌ copy_header set_header
    debug_headers_lem r w = refl

    write_head_sent :
        (r : Request) (code : ℤ) (w : World K)
        → is_status code ≡ true
        → is_informational code ≡ false
        → (hs : StringMap) × (write_head K L h r code (record { world = w; writer = new_writer })
            ≡ (
              returned tt,
              record {
                world = w;
                writer = record { headers = hs; sent = some (code, hs); body = [] };
              },
            ))
          × IsHead r hs
    unfolding write_head ◌>>=◌ set_header
    write_head_sent r code w e f = elim (Bool-cases (L.getenv "DEBUG" == "true")) [
      | inl d ↦
          let (p, q, s, t) = debug_map_lacks r in
          (
            head_headers r (debug_map r),
            rw (d, debug_headers_lem r w) (write_status code w _ e f),
            IsHead-insert r (debug_map r) p q s t,
          )
      | inr d ↦ (
        head_headers r [],
        rw d (write_status code w _ e f),
        unfold lookup in IsHead-insert r [] refl refl refl refl,
      )
    ]

    -- Over a lawful cluster, if the code of a request is a final status, that code is the status
    -- that the client gets, whatever happens later, an error page included, and with it go the
    -- headers that are set before, and none of those that tell of access allowed, denied or to be
    -- verified.
    pub ingress_handler_sent :
        (law : IsLawful K) (path : String) (r : Request) (w : World K)
        → is_status (response_code h r) ≡ true
        → is_informational (response_code h r) ≡ false
        → (hs : StringMap) × ((ingress_handler K L h path r
              (record { world = w; writer = new_writer })).1.writer.sent
            ≡ some (response_code h r, hs))
          × IsHead r hs
    unfolding ingress_handler ◌>>=◌ in_world read
    ingress_handler_sent law path r w e f =
        let (hs, eq, head) = write_head_sent r (response_code h r) w e f in
        (
          hs,
          rw eq (
              ((respond-Keeps K L h SentKept-IsKept r
                    (λ name ns i _ _ _.
                      allow_verified-Keeps K L h SentKept-IsKept name ns (start-SentKept name ns))
                    law.named path (response_code h r) (K.now w.cluster)).at
                  _).at
                (response_code h r, hs) refl),
          head,
        )
