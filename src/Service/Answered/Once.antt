-- ===== src/Service/Answered/Once.antt =====
-- Each client is answered once, by the thread that has its task.
use mathlib.Core.List.{map, map-append}
use mathlib.Core.Option.{some-injective}
use mathlib.Core.Path.{subst}
use nonblocking_io.Common.{
  total, at_update, at_update_either, ℕ, ◌+◌, ◌^◌, ◌<◌, ◌≡◌, ◌≢◌, refl, sym, ap, ◌∙◌, Bool, false,
  some, List, [], ◌∷◌, ◌++◌, append_assoc, append-nil, arith, update, ℤ, length,
}
use nonblocking_io.ThreadPool.{Task, Pool}
use nonblocking_io.ThreadPool.Invariant.{IsNew}
use nonblocking_io.ThreadPool.Fifo.{contents}
use nonblocking_io.ThreadPool.System.{ready, running}
use nonblocking_io.ThreadPool.System.Threads.{runs}
use nonblocking_io.ThreadPool.System.Invariant.{count, count-append}
use nonblocking_io.WorkerPool.{ClientInfo, put_client}
use nonblocking_io.WorkerPool.Handover.{Storage, IsEmpty, clients, clients_handed_over}
use nonblocking_io.WorkerPool.Reply.{bufsiz}
use nonblocking_io.WorkerPool.Callback.{Written}
use nonblocking_io.WorkerPool.Callback.Answers.{texts, Sent}
use nonblocking_io.WorkerPool.ClientTask.{TaskState, client_task}
use nonblocking_io.WorkerPool.ClientTask.Served.{page_for, pages, task-Sent}
use nonblocking_io.Server.Burst.{task_of}
use nonblocking_io.Service.{Service, Among, served, initial}
use nonblocking_io.Service
use nonblocking_io.Service.Conserved.{clients_conserved, store-Reach}
use nonblocking_io.Service.Answered.{
  Answering, log_of, answered, start, Step, other, answer, Reach, here, next,
}

log_of_self :
    (i : ℕ) (log : List (ℕ × (ClientInfo × ℤ))) (x : ClientInfo × ℤ)
    → log_of i (log ++ ((i, x) ∷ [])) ≡ log_of i log ++ (x ∷ [])
log_of_self i [] x = ground arith
log_of_self i ((j, y) ∷ log) x = ground (arith, log_of_self i log x)

log_of_others :
    (i j : ℕ) (log : List (ℕ × (ClientInfo × ℤ))) (x : ClientInfo × ℤ)
    → i ≢ j
    → log_of j (log ++ ((i, x) ∷ [])) ≡ log_of j log
log_of_others i j [] x ne = ground arith
log_of_others i j ((k, y) ∷ log) x ne = ground (arith, log_of_others i j log x ne)

answered-append_one :
    (log : List (ℕ × (ClientInfo × ℤ))) (i : ℕ) (c : ClientInfo) (readn : ℤ)
    → answered (log ++ ((i, (c, readn)) ∷ [])) ≡ answered log ++ (c ∷ [])
answered-append_one [] i c readn = refl
answered-append_one ((j, (d, m)) ∷ log) i c readn =
    ap (λ xs. d ∷ xs) (answered-append_one log i c readn)

pages-append_one :
    (xs : List (ClientInfo × ℤ)) (c : ClientInfo) (readn : ℤ)
    → pages (xs ++ ((c, readn) ∷ [])) ≡ pages xs ++ page_for c.fd readn
unfolding pages
pages-append_one [] c readn = append-nil (page_for c.fd readn)
pages-append_one ((d, m) ∷ xs) c readn =
    ap (λ ys. page_for d.fd m ++ ys) (pages-append_one xs c readn)
    ∙ sym (append_assoc (page_for d.fd m) (pages xs) (page_for c.fd readn))

-- A task that is over has put its client into the queue, and sent what is owed.
client_task-Sent :
    (c : ClientInfo) (readn : ℤ) (s : TaskState) {r : TaskState}
    → length s.written.buf ≡ bufsiz
    → client_task readn c s ≡ some r
    → (r.storage ≡ put_client c s.storage) × Sent s.written (page_for c.fd readn) r.written
client_task-Sent c readn s {r} whole e =
    let (t, e', sent) = task-Sent c readn s whole in
    let same = some-injective _ _ (sym e' ∙ e) in
    (
      sym (ap (λ (x : TaskState). x.storage) same),
      subst (λ (x : TaskState). Sent s.written (page_for c.fd readn) x.written) same sent,
    )

module _ {Poller : Type 0} (add_event : Poller → (fd events : ℕ) → Poller) (n : ℕ) (p : Pool)
    (store : Storage Poller) (threads : ℕ → Written) where
  record Inv (s : Answering Poller) : Type 0 where
    run : Service.Reach add_event n (initial p store) s.service
    whole : (i : ℕ) → length (s.threads i).buf ≡ bufsiz
    put_by_tasks : s.service.store.put ≡ store.put ++ answered s.log
    sent_by : (i : ℕ) → texts (s.threads i).out ≡ texts (threads i).out ++ pages (log_of i s.log)

  module _ {s : Answering Poller} (inv : Inv s) (i : ℕ) (c : ClientInfo) (readn : ℤ)
      (r : TaskState) where
    out_after_answer :
        Sent (s.threads i) (page_for c.fd readn) r.written
        → (j : ℕ)
        → texts (update s.threads i r.written j).out
          ≡ texts (threads j).out ++ pages (log_of j (s.log ++ ((i, (c, readn)) ∷ [])))
    out_after_answer sent j =
        at_update_either
          (λ w.
            texts w.out
            ≡ texts (threads j).out ++ pages (log_of j (s.log ++ ((i, (c, readn)) ∷ []))))
          s.threads i j r.written
          (λ e.
            subst
              (λ k.
                texts r.written.out
                ≡ texts (threads k).out ++ pages (log_of k (s.log ++ ((i, (c, readn)) ∷ []))))
              e
              (sent.all
                ∙ ap (λ xs. xs ++ page_for c.fd readn) (inv.sent_by i)
                ∙ append_assoc (texts (threads i).out) (pages (log_of i s.log))
                    (page_for c.fd readn)
                ∙ ap (λ xs. texts (threads i).out ++ xs)
                    (sym (
                      ap pages (log_of_self i s.log (c, readn))
                      ∙ pages-append_one (log_of i s.log) c readn))))
          (λ ne.
            inv.sent_by j
            ∙ ap (λ xs. texts (threads j).out ++ pages xs)
                (sym (log_of_others i j s.log (c, readn) ne)))

    answer-Inv :
        s.service.server.aborted ≡ false
        → i < n
        → s.service.sys.pc i ≡ running (task_of c)
        → Among c s.service.server.submitted
        → client_task readn c (record { written = s.threads i; storage = s.service.store.storage })
          ≡ some r
        → Inv (record {
          service = record s.service {
            sys = record s.service.sys {
              pc = update s.service.sys.pc i ready;
              finished = s.service.sys.finished ++ (task_of c ∷ []);
            };
            store = record s.service.store {
              storage = r.storage;
              put = s.service.store.put ++ (c ∷ []);
            };
          };
          threads = update s.threads i r.written;
          log = s.log ++ ((i, (c, readn)) ∷ []);
        })
    answer-Inv live lt at among e =
        let (stored, sent) =
          client_task-Sent c readn
            (record { written = s.threads i; storage = s.service.store.storage }) (inv.whole i) e in
        record {
          run =
              subst
                (λ xs. Service.Reach add_event n (initial p store) (record s.service {
                  sys = record s.service.sys {
                    pc = update s.service.sys.pc i ready;
                    finished = s.service.sys.finished ++ (task_of c ∷ []);
                  };
                  store = record s.service.store {
                    storage = xs;
                    put = s.service.store.put ++ (c ∷ []);
                  };
                }))
                (sym stored) (Service.next inv.run (served i c live lt at among));
          whole = λ j.
              at_update (λ w. length w.buf ≡ bufsiz) s.threads i j r.written sent.whole
                (λ ne. inv.whole j);
          put_by_tasks =
              ap (λ xs. xs ++ (c ∷ [])) inv.put_by_tasks
              ∙ append_assoc store.put (answered s.log) (c ∷ [])
              ∙ ap (λ xs. store.put ++ xs) (sym (answered-append_one s.log i c readn));
          sent_by = out_after_answer sent;
        }

  Step-Inv : {s t : Answering Poller} → Step add_event n s t → Inv s → Inv t
  Step-Inv (other st same) inv = record {
    run = Service.next inv.run st;
    whole = inv.whole;
    put_by_tasks = same ∙ inv.put_by_tasks;
    sent_by = inv.sent_by;
  }
  Step-Inv (answer i c readn {r} live lt at among e) inv =
      answer-Inv inv i c readn r live lt at among e

  Reach-Inv :
      {s : Answering Poller}
      → ((i : ℕ) → length (threads i).buf ≡ bufsiz)
      → Reach add_event n (start p store threads) s
      → Inv s
  unfolding pages
  Reach-Inv whole here = record {
    run = Service.here;
    whole = whole;
    put_by_tasks = sym (append-nil store.put);
    sent_by = λ i. sym (append-nil (texts (threads i).out));
  }
  Reach-Inv whole (next r st) = Step-Inv st (Reach-Inv whole r)

  -- From a new thread pool with fewer than 32768 threads, each with a send buffer of `BUFSIZ`
  -- bytes, and empty workers, whatever the interleaving and whatever the reads give: for every kind
  -- `q` of tasks, each client that the server has submitted has had its task dropped, waits in the
  -- ring, is being served, or has been served once; and what each thread has sent to the clients
  -- that it has served reads, each up to its first NUL and in order, as their reads call for: the
  -- page, the notice, or nothing. What stands in the buffer behind the NUL goes along.
  pub clients_answered_once :
      (q : Task → Bool) {s : Answering Poller}
      → n < 2 ^ 15
      → IsNew p
      → IsEmpty add_event store
      → ((i : ℕ) → length (threads i).buf ≡ bufsiz)
      → Reach add_event n (start p store threads) s
      → (count q (map task_of s.service.server.submitted)
          ≡ count q s.service.dropped
            + count q (contents s.service.sys.pool)
            + total (runs q) n s.service.sys.pc
            + count q (map task_of (answered s.log)))
        × ((i : ℕ) → texts (s.threads i).out ≡ texts (threads i).out ++ pages (log_of i s.log))
  clients_answered_once q {s} few new empty whole r =
      let inv : Inv s = Reach-Inv whole r in
      let (put_eq, _) = clients_handed_over add_event empty (store-Reach add_event n inv.run) in
      (
        omega (
          arith,
          clients_conserved add_event n q few new empty inv.run,
          ap (λ l. count q (map task_of l))
              (sym put_eq ∙ inv.put_by_tasks ∙ ap (λ xs. xs ++ answered s.log) empty.none_put),
          ap (count q) (map-append task_of (clients s.service.store.taken) s.service.store.storage)
              ∙ count-append q (map task_of (clients s.service.store.taken))
                  (map task_of s.service.store.storage),
        ),
        inv.sent_by,
      )
