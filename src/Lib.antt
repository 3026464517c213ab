-- ===== src/Lib.antt =====
-- The programs of a course on operating systems: a chat over UDP (lab11) and over TCP (lab10), a
-- clinic of threads (lab9), printers with a queue in shared memory (lab7), a chat over
-- message queues (lab6), the game of Life (lab8), and a library for the Collatz conjecture
-- (lab1). What is not named here is not modelled.
--
-- The chat, lab11/src. A server keeps a table of 255 clients, who send it messages of one fixed
-- record; it answers, passes them on, asks silent clients for a sign of life, and removes those that
-- give none.
--   Chat/CString.antt: byte arrays that hold texts, and safe_strcpy and safe_strcat of common.c;
--     the C library's strlen, strcmp, strncpy and strncat by what the C standard says they do.
--     CString/Laws.antt: the text that each leaves.
--   Chat/Message.antt: the record Message, create_message, validate_message, validate_client_id of
--     common.c. Message/ClientId.antt, Message/Valid.antt: their laws.
--   Chat/Protocol.antt: send_message_protocol of common.c. The system call sendto is a parameter, a
--     function of the log of all calls so far; the log also records each close.
--   Chat/Server.antt: Server and ServerClient of server.h, and the operations on the table of
--     server.c (find_client_by_id, add_client_udp, remove_client).
--   Chat/Server/Handlers.antt: handle_message_directly of server.c and the handlers it calls.
--   Chat/Server/Keepalive.antt: keepalive_monitor. Chat/Server/Lifecycle.antt: server_init,
--     server_start, server_stop, server_cleanup and create_server_socket.
--   Chat/Server/Table.antt, Invariant.antt and the files below it: the invariant of the table, for
--     each operation and for the interleaving of the threads. The receiving thread and the monitor
--     meet in clients_mutex; a step is a part that runs whole under it. A message waits between its
--     registration and its answer, as it does in handle_message_directly.
--   Chat/Server/Delivery.antt, Listing.antt, Timeout.antt: who is sent what, the text of the list, and
--     whom the monitor leaves alone.
--   Chat/Server/Shutdown.antt and the files below it: what becomes of the server's descriptor, which
--     all slots share. Of sendto only this is assumed: on a closed descriptor it fails (EBADF).
--   Chat/Server/Spare.antt: the functions of server.c that nothing calls. Chat/Server/Main.antt: its
--     main.
--   Chat/Client.antt: Client of client.h, and what client.c does to connect, ask and leave.
--   Chat/Client/Input.antt: handle_user_input, with strtok by what the C standard says of it. A line
--     too long for the block that it is copied to is undefined behaviour, and a result of its own.
--   Chat/Client/Main.antt: the receiving thread, client_run_interactive, client_start and main. What
--     is typed, arrives and interrupts is one sequence of happenings; each is handled whole. What the
--     receiving thread still gets while the client cleans up is an argument.
--   Chat/Client/Requests.antt, Typed.antt, Sent.antt, Open.antt, Closing.antt: the messages of the
--     client against validate_message, a typed line against the datagram it sends, and the life of the
--     socket. The pipe of the UDP client's signal handler is left out.
-- A descriptor or an index that may be -1 is an Option. Reads of the clock within one handler are one
-- number. Pointers that no caller passes as NULL are values. Output to the terminal, and the results
-- of pthread calls other than pthread_create and pthread_mutex_init, are left out. The rest of
-- common.c (times, printing, and what only the connection-based chat uses) is not modelled.
--
-- The chat, lab10/src: the same programs over TCP connections, with a thread for each client. The
-- types of server.h and common.h and the functions on texts, messages and names are those of lab11,
-- word for word.
--   Tcp/Stream.antt: send_message_protocol and receive_message_protocol of common.c, for any answers
--     of send and recv. The layout of a message in memory is a parameter. Tcp/Stream/Laws.antt,
--     Receive.antt, RoundTrip.antt: one message out, one message in, and both.
--   Tcp/Server.antt: add_client and remove_client of server.c. The network is a parameter, a function
--     of the log of all calls so far; of it only this is assumed: no message is interrupted for ever.
--   Tcp/Server/Handlers.antt: the requests. Tcp/Server/Keepalive.antt: keepalive_monitor.
--     Tcp/Server/Lifecycle.antt: server_init, the body of the loop of server_start, server_stop,
--     configure_socket and create_server_socket.
--   Tcp/System.antt: server_start, handle_client, server_cleanup, the monitor and the signal handler
--     as a step relation. A step is what one thread does between two calls that wait, or whole under
--     clients_mutex. An answer reads the slot's descriptor in the step that uses it. A signal that
--     comes while a thread has the mutex is not modelled; the handler would wait for itself.
--   Tcp/Sound.antt and the files below it: the table and the owners of descriptors, over all steps.
--   Tcp/Start.antt: main, up to the threads.
--   Tcp/Hang.antt and Shutdown.antt: server_cleanup against the clients' threads.
--   Tcp/Delivery.antt, Failure.antt, Timeout.antt: who gets a broadcast, a thread that cannot be
--     created, and silent clients.
--   Tcp/Client.antt: client.c. client_disconnect is a close and a join; what the receiving thread
--     does between them is an argument. Tcp/Client/Input.antt: handle_user_input.
--     Tcp/Client/Main.antt: client_run_interactive beside the receiving thread, client_start with the
--     pipe of the signal handler, and main. Tcp/Client/Connection.antt, Closing.antt,
--     Leaving.antt: the descriptors. pthread_join is taken to return, here and in the UDP client.
--
-- The clinic, lab9/src. Patients wait in a ring until the doctor takes all of them out.
--   Clinic/Queue.antt: queue.c, with the macro QUEUE_SIZE as the compiler expands it, and the loop of
--     doctor.c that empties the room. The loop runs on the places of the array that it writes; who
--     enters the room between its calls is an argument. Clinic/Queue/Inv.antt: where the indices can
--     stand. Clinic/Queue/Refine.antt, Clinic/Queue/Fresh.antt: the ring after, and before, the first
--     patient is called in.
--   Clinic/System.antt: the structures of clinic.h and patient.h, and where each thread of doctor.c,
--     patient.c and pharmacist.c can stand. Clinic/Steps.antt: their steps in any interleaving, with
--     the mutexes that each phase holds; pthread_cond_wait may return at any time. main.c is its start
--     of the threads and clinic_signal_patients_done.
--   Clinic/Medicine.antt, Attempts.antt, Deadlock.antt, Lost.antt: the cabinet, the attempts of a
--     patient, and two ways in which the threads come to wait for each other;
--     Clinic/Tests/Threads.antt and Clinic/Tests/Locked.antt lead there from the start.
--   Clinic/Cabinet.antt: the functions of clinic.c on the cabinet.
-- The arrays of main are given by the numbers of elements that they hold; the mallocs of main.c
-- ask for too little. The doctor's array of three patients has no room for a fourth: a run ends
-- before that write. Random times, output, and threads that cannot be created are not modelled.
--
-- The printers, lab7/src. Clients put documents into a ring in shared memory, printers take them out.
--   Printers.antt, Printers/Documents.antt: the documents and strcpy.
--   Printers/Systemv.antt: the loops of clients_systemv.c and printers_systemv.c as a step relation,
--     over the values of the two semaphores. Balance.antt, Ring.antt, Fifo.antt, Order.antt and
--     Progress.antt below it: what the semaphores count, the ring as a queue, and the way to the end.
--   Printers/Posix.antt: the same for clients_posix.c and printers_posix.c, with one semaphore;
--     Posix/Stall.antt and Full.antt: the ring when it is full.
-- A copy of a document is one step. Opening the memory and the semaphores, signals, cleanup and the
-- animation of print_msg are not modelled, and forks are taken to succeed.
--
-- The chat over message queues, lab6/src.
--   MessageQueues.antt: the formats of sscanf and snprintf that it uses, by what the C standard says;
--     an int is taken to fit. Laws.antt below it: what is printed is read again.
--   MessageQueues/Systemv.antt: the rounds of server_systemv.c, and what client_systemv.c sends for a
--     line. A write outside of an array ends the run. msgsnd is taken to return. Below it
--     Delivery.antt, from a line to the queues, and Table.antt, the places of the clients.
--   MessageQueues/Posix.antt: the rounds of server_posix.c over the system's queues, a parameter:
--     each call's answer may depend on all that was done before, and a descriptor that mq_open gives
--     is not open. Below it Owners.antt, who has to close a queue, and Rounds.antt.
-- The making of the queues and the rest of the clients are not modelled.
--
-- Life, lab8/src. A grid of 35 by 35 cells.
--   Life/Grid.antt: is_alive and update_grid of grid.c. Life/Loop.antt: the loop of life.c.
--   Life/Workers.antt: the rows that main of simulation.c gives each thread, and one round of
--     worker_function, in which the threads make their assignments to the new grid in any
--     interleaving. Life/Workers/Cover.antt, Generation.antt,
--     Finish.antt: the rows cover the grid, a finished round is the update, a round can be finished.
-- main swaps the grids after a fixed sleep; that the sleep is long enough for a round is not shown.
--
-- The Collatz library, lab1/src.
--   Collatz.antt: collatz.c, and client_static.c for numbers that were read. Orbit.antt below it: the
--     way to 1 as a relation.
--
-- Prelude.antt passes on the library's names, with tests, lists, integers and searches over the
-- native numbers below it. The files called Tests hold runs and the theorems applied to them.
pub mod Prelude
pub mod Clinic
pub mod Chat
pub mod Tcp
pub mod Life
pub mod Printers
pub mod MessageQueues
pub mod Collatz
