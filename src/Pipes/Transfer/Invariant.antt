-- ===== src/Pipes/Transfer/Invariant.antt =====
-- us-xfr: where the bytes of the input are in every state.
use operating_systems_theory.Common.{
  [], ◌++◌, ◌≡◌, Bool, false, true, refl, append_assoc, drop, inl, inr, sym, take, take-append-drop,
  ℕ, ◌∙◌,
}
use operating_systems_theory.Common.Text.{Text}
use operating_systems_theory.Pipes.Transfer.{
  Link, Client, Move, Server, c_failed, c_succeeded, c_write, deliver, end_of_input, hang_up, read,
  receive, v_accept, v_failed, v_write, write, Failure, HasLeft, Run, begin, deliver_fails, failure,
  read_fails, receive_fails, step, write_fails,
}

-- What the client has read and not written, and what the server has received and not written.
unfoldable pub to_send : Client → Text → Text
to_send c_write client_buf = client_buf
to_send _ client_buf = []

unfoldable pub to_deliver : Server → Text → Text
to_deliver v_write server_buf = server_buf
to_deliver _ server_buf = []

abbrev pub has_failed : Client → Bool
has_failed c_failed = true
has_failed _ = false

abbrev pub has_finished : Client → Bool
has_finished c_succeeded = true
has_finished _ = false

abbrev pub is_failed : Server → Bool
is_failed v_failed = true
is_failed _ = false

abbrev pub is_back : Server → Bool
is_back v_accept = true
is_back _ = false

abbrev pub has_left : Client → Bool
has_left c_succeeded = true
has_left c_failed = true
has_left _ = false

-- The bytes of the input are in the output, in the buffers and on the socket, in this order, but for
-- those that a failed write has lost.
pub record Inv (whole : Text) (x : Link) : Type 0 where
  pub lost_by_server : Text
  pub lost_by_client : Text
  pub account :
      x.output
        ++ (to_deliver x.server x.server_buf
            ++ (lost_by_server
                ++ (x.stream ++ (to_send x.client x.client_buf ++ (lost_by_client ++ x.input)))))
      ≡ whole
  pub server_fine : is_failed x.server ≡ false → lost_by_server ≡ []
  pub client_fine : has_failed x.client ≡ false → lost_by_client ≡ []
  pub at_end : has_finished x.client ≡ true → x.input ≡ []
  pub hung_up : is_back x.server ≡ true → (x.stream ≡ []) × (has_left x.client ≡ true)

left_lem : (c : Client) → HasLeft c → has_left c ≡ true
left_lem c (inl e) = rw e refl
left_lem c (inr e) = rw e refl

module _ (whole : Text) where
  Move-Inv : {x x' : Link} → Move x x' → Inv whole x → Inv whole x'
  unfolding to_send to_deliver
  Move-Inv {x} (read chunk rest e u nonempty few) i =
      let fine : i.lost_by_client ≡ [] = i.client_fine (rw e refl) in
      let here : has_left x.client ≡ false = rw e refl in
      record {
        lost_by_server = i.lost_by_server;
        lost_by_client = [];
        account = rw (e, u, fine) at i.account;
        server_fine = i.server_fine;
        client_fine = λ _. refl;
        at_end = λ h. absurd (cc (h));
        hung_up = λ h. absurd (cc (here, (i.hung_up h).1));
      }
  Move-Inv {x} (end_of_input e u) i =
      let here : has_left x.client ≡ false = rw e refl in
      record {
        lost_by_server = i.lost_by_server;
        lost_by_client = i.lost_by_client;
        account = rw e at i.account;
        server_fine = i.server_fine;
        client_fine = λ _. i.client_fine (rw e refl);
        at_end = λ _. u;
        hung_up = λ h. absurd (cc (here, (i.hung_up h).1));
      }
  Move-Inv {x} (write e) i =
      let here : has_left x.client ≡ false = rw e refl in
      record {
        lost_by_server = i.lost_by_server;
        lost_by_client = i.lost_by_client;
        account =
            rw (append_assoc x.stream x.client_buf (i.lost_by_client ++ x.input))
              (rw e at i.account);
        server_fine = i.server_fine;
        client_fine = λ _. i.client_fine (rw e refl);
        at_end = λ h. absurd (cc (h));
        hung_up = λ h. absurd (cc (here, (i.hung_up h).1));
      }
  Move-Inv {x} (receive chunk rest e u nonempty few) i =
      let fine : i.lost_by_server ≡ [] = i.server_fine (rw e refl) in
      let after = to_send x.client x.client_buf ++ (i.lost_by_client ++ x.input) in
      record {
        lost_by_server = [];
        lost_by_client = i.lost_by_client;
        account = rw (sym (append_assoc chunk rest after)) (rw (e, u, fine) at i.account);
        server_fine = λ _. refl;
        client_fine = i.client_fine;
        at_end = i.at_end;
        hung_up = λ h. absurd (cc (h));
      }
  Move-Inv {x} (hang_up e u left) i = record {
    lost_by_server = i.lost_by_server;
    lost_by_client = i.lost_by_client;
    account = rw e at i.account;
    server_fine = λ _. i.server_fine (rw e refl);
    client_fine = i.client_fine;
    at_end = i.at_end;
    hung_up = λ _. (u, left_lem x.client left);
  }
  Move-Inv {x} (deliver e) i =
      let after =
        i.lost_by_server
        ++ (x.stream ++ (to_send x.client x.client_buf ++ (i.lost_by_client ++ x.input))) in
      record {
        lost_by_server = i.lost_by_server;
        lost_by_client = i.lost_by_client;
        account = append_assoc x.output x.server_buf after ∙ (rw e at i.account);
        server_fine = λ _. i.server_fine (rw e refl);
        client_fine = i.client_fine;
        at_end = i.at_end;
        hung_up = λ h. absurd (cc (h));
      }

  Failure-Inv : {x x' : Link} → Failure x x' → Inv whole x → Inv whole x'
  unfolding to_send to_deliver
  Failure-Inv {x} (read_fails e) i =
      let here : has_left x.client ≡ false = rw e refl in
      record {
        lost_by_server = i.lost_by_server;
        lost_by_client = i.lost_by_client;
        account = rw e at i.account;
        server_fine = i.server_fine;
        client_fine = λ h. absurd (cc (h));
        at_end = λ h. absurd (cc (h));
        hung_up = λ h. absurd (cc (here, (i.hung_up h).1));
      }
  Failure-Inv {x} (write_fails n e less) i =
      let here : has_left x.client ≡ false = rw e refl in
      let fine : i.lost_by_client ≡ [] = i.client_fine (rw e refl) in
      record {
        lost_by_server = i.lost_by_server;
        lost_by_client = drop n x.client_buf;
        account =
            rw
              (
                append_assoc x.stream (take n x.client_buf) (drop n x.client_buf ++ x.input),
                sym (append_assoc (take n x.client_buf) (drop n x.client_buf) x.input),
                take-append-drop n x.client_buf,
              )
              (rw (e, fine) at i.account);
        server_fine = i.server_fine;
        client_fine = λ h. absurd (cc (h));
        at_end = λ h. absurd (cc (h));
        hung_up = λ h. absurd (cc (here, (i.hung_up h).1));
      }
  Failure-Inv {x} (receive_fails e) i = record {
    lost_by_server = i.lost_by_server;
    lost_by_client = i.lost_by_client;
    account = rw e at i.account;
    server_fine = λ h. absurd (cc (h));
    client_fine = i.client_fine;
    at_end = i.at_end;
    hung_up = λ h. absurd (cc (h));
  }
  Failure-Inv {x} (deliver_fails n e less) i =
      let fine : i.lost_by_server ≡ [] = i.server_fine (rw e refl) in
      let after = x.stream ++ (to_send x.client x.client_buf ++ (i.lost_by_client ++ x.input)) in
      record {
        lost_by_server = drop n x.server_buf;
        lost_by_client = i.lost_by_client;
        account =
            append_assoc x.output (take n x.server_buf) (drop n x.server_buf ++ after)
            ∙ rw
                (
                  sym (append_assoc (take n x.server_buf) (drop n x.server_buf) after),
                  take-append-drop n x.server_buf,
                )
                (rw (e, fine) at i.account);
        server_fine = λ h. absurd (cc (h));
        client_fine = i.client_fine;
        at_end = i.at_end;
        hung_up = λ h. absurd (cc (h));
      }

  pub Run-Inv : {k : ℕ} {x : Link} → Run whole k x → Inv whole x
  unfolding to_send to_deliver
  Run-Inv begin = record {
    lost_by_server = [];
    lost_by_client = [];
    account = refl;
    server_fine = λ _. refl;
    client_fine = λ _. refl;
    at_end = λ h. absurd (cc (h));
    hung_up = λ h. absurd (cc (h));
  }
  Run-Inv (step r m) = Move-Inv m (Run-Inv r)
  Run-Inv (failure r f) = Failure-Inv f (Run-Inv r)
